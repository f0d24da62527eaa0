-- ===== src/StoreLog/Reader/Progress.antt =====
-- What a call that the order takes does to the export's extent: it never shrinks.
use yurt_playground.Base.{
  ℕ, ◌+◌, ◌≤◌, ◌≡◌, refl, ◌≢◌, true, Option, none, some, Text, Outcome, ok, err, arith, text_eq,
  text_eq_iff, inl, inr, subst, Bool-cases, includes, if◌then◌else◌,
}
use yurt_playground.StoreLog.{
  StoreExportOrder, OrderError, OpenFile, OrderPhase, contents, journal_open, journal_closed,
  meta_open, meta_closed, begin, begin_file, open_next, next_phase, content_phase, meta_phase,
  journal_phase, write, write_to, write_begun, set_length, length_of, length_begun, closed_phase,
  finish_order, is_complete, ended_before_meta, StoreTotals, is_store_file_name, max_safe_integer,
  store_piece_bytes,
}
use yurt_playground.StoreLog.Reader.{files_so_far, bytes_so_far}

-- A file is open before the end only, and its name is a store file's.
abbrev pub IsOpen : OrderPhase → Option OpenFile → Type 0
IsOpen phase none = Unit
IsOpen phase (some file) = (phase ≢ meta_closed) × (is_store_file_name file.name ≡ true)

abbrev pub IsOrder : StoreExportOrder → Type 0
IsOrder o = IsOpen o.phase o.opened

abbrev Begun : StoreExportOrder → Text → StoreExportOrder × Outcome OrderError OpenFile → Type 0
Begun o name (o1, err e) = Unit
Begun o name (o1, ok file) =
    (file.name ≡ name)
    × (is_store_file_name name ≡ true)
    × (o1.phase ≢ meta_closed)
    × (o1.totals ≡ o.totals)
    × (files_so_far o ≤ o.totals.files + 1)
    × (bytes_so_far o ≤ o.totals.bytes + file.end)

abbrev pub Moved : StoreExportOrder → Text → StoreExportOrder × Outcome OrderError Text → Type 0
Moved o name (o1, err e) = Unit
Moved o name (o1, ok file) =
    (file ≡ name)
    × (is_store_file_name name ≡ true)
    × IsOrder o1
    × (files_so_far o ≤ files_so_far o1)
    × (bytes_so_far o ≤ bytes_so_far o1)
    × (o.totals.piece_bytes ≤ o1.totals.piece_bytes)

next_phase-open :
    (name : Text) (phase next : OrderPhase) → next_phase name phase ≡ some next → next ≢ meta_closed
unfolding next_phase content_phase meta_phase journal_phase
next_phase-open name contents next e = ground arith
next_phase-open name journal_open next e = ground arith
next_phase-open name journal_closed next e = ground arith
next_phase-open name meta_open next e = ground arith
next_phase-open name meta_closed next e = ground arith

open_next-Begun :
    (name : Text) (next : Option OrderPhase) (o : StoreExportOrder)
    → is_store_file_name name ≡ true
    → ((phase : OrderPhase) → next ≡ some phase → phase ≢ meta_closed)
    → o.opened ≡ none
    → Begun o name (open_next name next o)
unfolding open_next
open_next-Begun name none o named opens e = tt
open_next-Begun name (some phase) o named opens e =
    (refl, named, opens phase refl, refl, ground arith, ground arith)

begin_file-Begun :
    (name : Text) (opened : Option OpenFile) (o : StoreExportOrder)
    → o.opened ≡ opened
    → IsOpen o.phase opened
    → Begun o name (begin_file name opened o)
unfolding begin_file
begin_file-Begun name none o e is_open = elim (Bool-cases (is_store_file_name name)) [
  | inr unnamed ↦ rw unnamed tt
  | inl named ↦ elim (Bool-cases (includes name o.seen)) [
    | inl seen ↦ rw (named, seen) tt
    | inr new ↦
        rw (named, new)
          (open_next-Begun name (next_phase name o.phase) o named (next_phase-open name o.phase) e)
  ]
]
begin_file-Begun name (some file) o e is_open = elim (Bool-cases (text_eq file.name name)) [
  | inr other ↦ rw other tt
  | inl same ↦ rw same (
    (text_eq_iff file.name name).0 same,
    subst (λ n. is_store_file_name n ≡ true) ((text_eq_iff file.name name).0 same) is_open.1,
    is_open.0,
    refl,
    ground arith,
    ground arith,
  )
]

begin-Begun : (name : Text) (o : StoreExportOrder) → IsOrder o → Begun o name (begin name o)
unfolding begin
begin-Begun name o is_order = begin_file-Begun name o.opened o refl is_order

write_begun-Moved :
    (o : StoreExportOrder) (name : Text) (offset size : ℕ)
    (m : StoreExportOrder × Outcome OrderError OpenFile)
    → Begun o name m
    → Moved o name (write_begun (some offset) size m)
unfolding write_begun write_to
write_begun-Moved o name offset size (o1, err e) begun = tt
write_begun-Moved o name offset size (o1, ok file) begun = ground arith

length_begun-Moved :
    (o : StoreExportOrder) (name : Text) (n : ℕ)
    (m : StoreExportOrder × Outcome OrderError OpenFile)
    → Begun o name m
    → Moved o name (length_begun (some n) m)
unfolding length_begun length_of closed_phase
length_begun-Moved o name n (o1, err e) begun = tt
length_begun-Moved o name n (o1, ok file) begun = ground arith

pub write-Moved :
    (name : Text) (offset size : ℕ) (o : StoreExportOrder)
    → IsOrder o
    → Moved o name (write name (some offset) size o)
unfolding write
write-Moved name offset size o is_order =
    write_begun-Moved o name offset size (begin name o) (begin-Begun name o is_order)

pub set_length-Moved :
    (name : Text) (n : ℕ) (o : StoreExportOrder)
    → IsOrder o
    → Moved o name (set_length name (some n) o)
unfolding set_length
set_length-Moved name n o is_order =
    length_begun-Moved o name n (begin name o) (begin-Begun name o is_order)

-- The numbers of a call that the order takes.
abbrev pub Fits : Type 0 → StoreExportOrder × Outcome OrderError Text → Type 0
Fits P (o, err e) = Unit
Fits P (o, ok file) = P

write_begun-Fits :
    (offset size : ℕ) (m : StoreExportOrder × Outcome OrderError OpenFile)
    → Fits
        ((offset ≤ max_safe_integer) × (size ≤ store_piece_bytes))
        (write_begun (some offset) size m)
unfolding write_begun write_to
write_begun-Fits offset size (o, err e) = tt
write_begun-Fits offset size (o, ok file) = ground arith

pub write-Fits :
    (name : Text) (offset size : ℕ) (o : StoreExportOrder)
    → Fits
        ((offset ≤ max_safe_integer) × (size ≤ store_piece_bytes))
        (write name (some offset) size o)
unfolding write
write-Fits name offset size o = write_begun-Fits offset size (begin name o)

length_begun-Fits :
    (n : ℕ) (m : StoreExportOrder × Outcome OrderError OpenFile)
    → Fits (n ≤ max_safe_integer) (length_begun (some n) m)
unfolding length_begun length_of
length_begun-Fits n (o, err e) = tt
length_begun-Fits n (o, ok file) = ground arith

pub set_length-Fits :
    (name : Text) (n : ℕ) (o : StoreExportOrder)
    → Fits (n ≤ max_safe_integer) (set_length name (some n) o)
unfolding set_length
set_length-Fits name n o = length_begun-Fits n (begin name o)

-- The end of an export: no file is open, and its totals are the extent.
pub finish_order-totals :
    (o : StoreExportOrder) (totals : StoreTotals)
    → IsOrder o
    → finish_order o ≡ ok totals
    → (files_so_far o ≡ totals.files)
      × (bytes_so_far o ≡ totals.bytes)
      × (o.totals.piece_bytes ≡ totals.piece_bytes)
unfolding finish_order is_complete
finish_order-totals o totals is_order e = ground arith

pub finish_order-eq :
    (o : StoreExportOrder) (totals : StoreTotals) → finish_order o ≡ ok totals → o.totals ≡ totals
unfolding finish_order is_complete
finish_order-eq o totals e = by_phase o.phase e
  where
    by_phase :
        (phase : OrderPhase)
        → (if is_complete phase then ok o.totals else err ended_before_meta) ≡ ok totals
        → o.totals ≡ totals
    by_phase meta_closed e = cc
    by_phase contents e = cc
    by_phase journal_open e = cc
    by_phase journal_closed e = cc
    by_phase meta_open e = cc
