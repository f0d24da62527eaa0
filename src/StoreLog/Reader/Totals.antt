-- ===== src/StoreLog/Reader/Totals.antt =====
-- What a call of the order adds to the export's totals, and that a call it refuses adds nothing.
use yurt_playground.Base.{
  ℕ, ◌+◌, ◌≡◌, refl, Bool, Option, none, some, Text, Outcome, ok, err, arith, subst,
}
use yurt_playground.StoreLog.{
  StoreExportOrder, StoreTotals, OrderError, OpenFile, OrderPhase, is_safe, begin, begin_file,
  open_next, next_phase, write, write_to, write_begun, set_length, length_of, length_begun,
  number_or_zero,
}

-- The order after a call against the order before it: what each total grew by.
abbrev pub Grown : ℕ → ℕ → ℕ → StoreTotals → StoreExportOrder × Outcome OrderError Text → Type 0
Grown files bytes piece_bytes t (o, err e) = o.totals ≡ t
Grown files bytes piece_bytes t (o, ok file) =
    (o.totals.files ≡ t.files + files)
    × (o.totals.bytes ≡ t.bytes + bytes)
    × (o.totals.piece_bytes ≡ t.piece_bytes + piece_bytes)

open_next-totals :
    (name : Text) (next : Option OrderPhase) (o : StoreExportOrder)
    → (open_next name next o).0.totals ≡ o.totals
unfolding open_next
open_next-totals name none o = refl
open_next-totals name (some phase) o = refl

begin_file-totals :
    (name : Text) (opened : Option OpenFile) (o : StoreExportOrder)
    → (begin_file name opened o).0.totals ≡ o.totals
unfolding begin_file
begin_file-totals name none o = ground (arith, open_next-totals name (next_phase name o.phase) o)
begin_file-totals name (some file) o = ground arith

pub begin-totals : (name : Text) (o : StoreExportOrder) → (begin name o).0.totals ≡ o.totals
unfolding begin
begin-totals name o = begin_file-totals name o.opened o

write_to-Grown :
    (offset : ℕ) (safe : Bool) (size : ℕ) (file : OpenFile) (o : StoreExportOrder)
    → Grown 0 0 size o.totals (write_to offset safe size file o)
unfolding write_to
write_to-Grown offset safe size file o = ground arith

length_of-Grown :
    (length : ℕ) (safe : Bool) (file : OpenFile) (o : StoreExportOrder)
    → Grown 1 length 0 o.totals (length_of length safe file o)
unfolding length_of
length_of-Grown length safe file o = ground arith

write_begun-Grown :
    (offset : Option ℕ) (size : ℕ) (t : StoreTotals)
    (m : StoreExportOrder × Outcome OrderError OpenFile)
    → m.0.totals ≡ t
    → Grown 0 0 size t (write_begun offset size m)
unfolding write_begun
write_begun-Grown offset size t (o, err e) h = h
write_begun-Grown offset size t (o, ok file) h =
    subst (λ u. Grown 0 0 size u (write_to (number_or_zero offset) (is_safe offset) size file o)) h
      (write_to-Grown (number_or_zero offset) (is_safe offset) size file o)

pub write-Grown :
    (name : Text) (offset : Option ℕ) (size : ℕ) (o : StoreExportOrder)
    → Grown 0 0 size o.totals (write name offset size o)
unfolding write
write-Grown name offset size o =
    write_begun-Grown offset size o.totals (begin name o) (begin-totals name o)

length_begun-Grown :
    (length : Option ℕ) (t : StoreTotals) (m : StoreExportOrder × Outcome OrderError OpenFile)
    → m.0.totals ≡ t
    → Grown 1 (number_or_zero length) 0 t (length_begun length m)
unfolding length_begun
length_begun-Grown length t (o, err e) h = h
length_begun-Grown length t (o, ok file) h =
    subst
      (λ u.
        Grown 1 (number_or_zero length) 0 u
          (length_of (number_or_zero length) (is_safe length) file o))
      h (length_of-Grown (number_or_zero length) (is_safe length) file o)

pub set_length-Grown :
    (name : Text) (length : Option ℕ) (o : StoreExportOrder)
    → Grown 1 (number_or_zero length) 0 o.totals (set_length name length o)
unfolding set_length
set_length-Grown name length o =
    length_begun-Grown length o.totals (begin name o) (begin-totals name o)
