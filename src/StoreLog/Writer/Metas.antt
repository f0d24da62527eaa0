-- ===== src/StoreLog/Writer/Metas.antt =====
-- Once `meta` is open, the order takes calls that name it only, and none after its length.
use yurt_playground.Base.{
  ℕ, ◌≡◌, refl, sym, ◌∙◌, ◌≢◌, Bool, true, false, not, Option, some, none, Text, Outcome, ok, err,
  text_eq, text_eq_iff, inl, inr, Bool-cases, includes, starts_with, subst, ◌||◌, ◌&&◌, ◌==◌, ◌%◌,
  ltb,
}
use mathlib.Core.Bool.{false≢true}
use yurt_playground.StoreLog.{
  StoreExportOrder, OrderError, OrderPhase, OpenFile, contents, journal_open, journal_closed,
  meta_open, meta_closed, meta, content_prefix, begin, begin_file, open_next, next_phase,
  content_phase, meta_phase, journal_phase, write, write_begun, write_to, set_length, length_begun,
  length_of, closed_phase, is_store_file_name, store_piece_bytes, number_or_zero, is_safe,
}

abbrev pub in_meta : OrderPhase → Bool
in_meta meta_open = true
in_meta meta_closed = true
in_meta _ = false

-- What is open in each phase.
abbrev pub AtMeta : OrderPhase → Option OpenFile → Type 0
AtMeta meta_open none = ⊥
AtMeta meta_open (some file) = file.name ≡ meta
AtMeta meta_closed none = Unit
AtMeta meta_closed (some file) = ⊥
AtMeta contents none = Unit
AtMeta contents (some file) = file.name ≢ meta
AtMeta journal_open none = Unit
AtMeta journal_open (some file) = file.name ≢ meta
AtMeta journal_closed none = Unit
AtMeta journal_closed (some file) = file.name ≢ meta

content-not_meta : (name : Text) → starts_with name content_prefix ≡ true → name ≢ meta
content-not_meta name h e =
    absurd (false≢true (subst (λ n. starts_with n content_prefix ≡ true) e h))

other-not_meta : (name : Text) → text_eq name meta ≡ false → name ≢ meta
other-not_meta name h e = false≢true (sym h ∙ (text_eq_iff name meta).1 e)

-- A phase that a file's first call moves to.
abbrev AtNext : OrderPhase → OpenFile → Option OrderPhase → Type 0
AtNext phase file none = Unit
AtNext phase file (some next) = AtMeta next (some file) × (in_meta phase ≡ false)

content_phase-AtNext :
    (phase : OrderPhase) (file : OpenFile)
    → file.name ≢ meta
    → AtNext phase file (content_phase phase)
unfolding content_phase
content_phase-AtNext contents file n = (n, refl)
content_phase-AtNext journal_open file n = tt
content_phase-AtNext journal_closed file n = tt
content_phase-AtNext meta_open file n = tt
content_phase-AtNext meta_closed file n = tt

meta_phase-AtNext :
    (phase : OrderPhase) (file : OpenFile) → file.name ≡ meta → AtNext phase file (meta_phase phase)
unfolding meta_phase
meta_phase-AtNext contents file e = tt
meta_phase-AtNext journal_open file e = tt
meta_phase-AtNext journal_closed file e = (e, refl)
meta_phase-AtNext meta_open file e = tt
meta_phase-AtNext meta_closed file e = tt

journal_phase-AtNext :
    (phase : OrderPhase) (file : OpenFile)
    → file.name ≢ meta
    → AtNext phase file (journal_phase phase)
unfolding journal_phase
journal_phase-AtNext contents file n = (n, refl)
journal_phase-AtNext journal_open file n = tt
journal_phase-AtNext journal_closed file n = tt
journal_phase-AtNext meta_open file n = tt
journal_phase-AtNext meta_closed file n = tt

next_phase-AtNext :
    (phase : OrderPhase) (file : OpenFile) → AtNext phase file (next_phase file.name phase)
unfolding next_phase
next_phase-AtNext phase file = elim (Bool-cases (starts_with file.name content_prefix)) [
  | inl content ↦ rw content (content_phase-AtNext phase file (content-not_meta file.name content))
  | inr other ↦ elim (Bool-cases (text_eq file.name meta)) [
    | inl is_meta ↦
        rw (other, is_meta) (meta_phase-AtNext phase file ((text_eq_iff file.name meta).0 is_meta))
    | inr journal ↦
        rw (other, journal) (journal_phase-AtNext phase file (other-not_meta file.name journal))
  ]
]

-- A call names the open file, which is `meta` if its phase says so.
abbrev Opens : StoreExportOrder → Text → StoreExportOrder × Outcome OrderError OpenFile → Type 0
Opens o name (o1, err e) = Unit
Opens o name (o1, ok file) =
    (file.name ≡ name) × AtMeta o1.phase (some file) × (in_meta o.phase ≡ true → name ≡ meta)

meta-in_meta :
    (phase : OrderPhase) (file : OpenFile)
    → AtMeta phase (some file)
    → (file.name ≡ meta → in_meta phase ≡ true) × (in_meta phase ≡ true → file.name ≡ meta)
meta-in_meta contents file at = (λ e. absurd (at e), λ e. absurd (false≢true e))
meta-in_meta journal_open file at = (λ e. absurd (at e), λ e. absurd (false≢true e))
meta-in_meta journal_closed file at = (λ e. absurd (at e), λ e. absurd (false≢true e))
meta-in_meta meta_open file at = (λ e. refl, λ e. at)
meta-in_meta meta_closed file at = absurd at

open_next-Opens :
    (name : Text) (o : StoreExportOrder) (next : Option OrderPhase)
    → AtNext o.phase (record { name = name; end = 0; short = false }) next
    → Opens o name (open_next name next o)
unfolding open_next
open_next-Opens name o none at = tt
open_next-Opens name o (some next) at = (refl, at.0, λ e. absurd (false≢true (sym at.1 ∙ e)))

begin_file-Opens :
    (name : Text) (opened : Option OpenFile) (o : StoreExportOrder)
    → AtMeta o.phase opened
    → Opens o name (begin_file name opened o)
unfolding begin_file
begin_file-Opens name none o at = elim (Bool-cases (is_store_file_name name)) [
  | inr unnamed ↦ rw unnamed tt
  | inl named ↦ elim (Bool-cases (includes name o.seen)) [
    | inl seen ↦ rw (named, seen) tt
    | inr new ↦
        rw (named, new)
          (open_next-Opens name o (next_phase name o.phase)
            (next_phase-AtNext o.phase (record { name = name; end = 0; short = false })))
  ]
]
begin_file-Opens name (some file) o at = elim (Bool-cases (text_eq file.name name)) [
  | inr other ↦ rw other tt
  | inl same ↦ rw same (
    (text_eq_iff file.name name).0 same,
    at,
    λ e. sym ((text_eq_iff file.name name).0 same) ∙ (meta-in_meta o.phase file at).1 e,
  )
]

begin-Opens :
    (name : Text) (o : StoreExportOrder) → AtMeta o.phase o.opened → Opens o name (begin name o)
unfolding begin
begin-Opens name o at = begin_file-Opens name o.opened o at

-- After a call that is taken: `meta`'s leaves the order in `meta`'s phases, where it takes no other.
abbrev pub Ends : StoreExportOrder → Text → StoreExportOrder × Outcome OrderError Text → Type 0
Ends o name (o1, err e) = Unit
Ends o name (o1, ok file) =
    AtMeta o1.phase o1.opened
    × (name ≡ meta → in_meta o1.phase ≡ true)
    × (in_meta o.phase ≡ true → name ≡ meta)

same_name-AtMeta :
    (phase : OrderPhase) (file more : OpenFile)
    → file.name ≡ more.name
    → AtMeta phase (some file)
    → AtMeta phase (some more)
same_name-AtMeta contents file more e at = λ m. at (e ∙ m)
same_name-AtMeta journal_open file more e at = λ m. at (e ∙ m)
same_name-AtMeta journal_closed file more e at = λ m. at (e ∙ m)
same_name-AtMeta meta_open file more e at = sym e ∙ at
same_name-AtMeta meta_closed file more e at = at

write_to-Ends :
    (o o1 : StoreExportOrder) (name : Text) (offset size : ℕ) (safe : Bool) (file : OpenFile)
    → Opens o name (o1, ok file)
    → Ends o name (write_to offset safe size file o1)
unfolding write_to
write_to-Ends o o1 name offset size safe file opens =
    elim (Bool-cases
      (not safe || not (offset % store_piece_bytes == 0) || ltb offset file.end || file.short)) [
        | inl t ↦ rw t tt
        | inr f ↦ elim (Bool-cases (ltb size 1 || ltb store_piece_bytes size)) [
          | inl t ↦ rw (f, t) tt
          | inr g ↦
              rw (f, g)
                (
                  same_name-AtMeta o1.phase file _ refl opens.1,
                  λ e. (meta-in_meta o1.phase file opens.1).0 (opens.0 ∙ e),
                  opens.2,
                )
        ]
      ]

closed_phase-AtMeta :
    (phase : OrderPhase) (file : OpenFile)
    → AtMeta phase (some file)
    → AtMeta (closed_phase phase) none × (in_meta (closed_phase phase) ≡ in_meta phase)
unfolding closed_phase
closed_phase-AtMeta contents file at = (tt, refl)
closed_phase-AtMeta journal_open file at = (tt, refl)
closed_phase-AtMeta journal_closed file at = (tt, refl)
closed_phase-AtMeta meta_open file at = (tt, refl)
closed_phase-AtMeta meta_closed file at = absurd at

length_of-Ends :
    (o o1 : StoreExportOrder) (name : Text) (n : ℕ) (safe : Bool) (file : OpenFile)
    → Opens o name (o1, ok file)
    → Ends o name (length_of n safe file o1)
unfolding length_of
length_of-Ends o o1 name n safe file opens =
    elim (Bool-cases (not safe || ltb n file.end || (file.short && not (n == file.end)))) [
      | inl t ↦ rw t tt
      | inr f ↦ rw f (
        (closed_phase-AtMeta o1.phase file opens.1).0,
        λ e.
            (closed_phase-AtMeta o1.phase file opens.1).1
            ∙ (meta-in_meta o1.phase file opens.1).0 (opens.0 ∙ e),
        opens.2,
      )
    ]

write_begun-Ends :
    (o : StoreExportOrder) (name : Text) (offset : Option ℕ) (size : ℕ)
    (m : StoreExportOrder × Outcome OrderError OpenFile)
    → Opens o name m
    → Ends o name (write_begun offset size m)
unfolding write_begun
write_begun-Ends o name offset size (o1, err e) opens = tt
write_begun-Ends o name offset size (o1, ok file) opens =
    write_to-Ends o o1 name (number_or_zero offset) size (is_safe offset) file opens

length_begun-Ends :
    (o : StoreExportOrder) (name : Text) (n : Option ℕ)
    (m : StoreExportOrder × Outcome OrderError OpenFile)
    → Opens o name m
    → Ends o name (length_begun n m)
unfolding length_begun
length_begun-Ends o name n (o1, err e) opens = tt
length_begun-Ends o name n (o1, ok file) opens =
    length_of-Ends o o1 name (number_or_zero n) (is_safe n) file opens

pub write-Ends :
    (name : Text) (offset : Option ℕ) (size : ℕ) (o : StoreExportOrder)
    → AtMeta o.phase o.opened
    → Ends o name (write name offset size o)
unfolding write
write-Ends name offset size o at =
    write_begun-Ends o name offset size (begin name o) (begin-Opens name o at)

pub set_length-Ends :
    (name : Text) (n : Option ℕ) (o : StoreExportOrder)
    → AtMeta o.phase o.opened
    → Ends o name (set_length name n o)
unfolding set_length
set_length-Ends name n o at = length_begun-Ends o name n (begin name o) (begin-Opens name o at)
