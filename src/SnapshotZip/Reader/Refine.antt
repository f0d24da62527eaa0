-- ===== src/SnapshotZip/Reader/Refine.antt =====
-- However the stream is cut into chunks, a reader's calls return what the whole of the bytes says.
use yurt_playground.Base.{
  ℕ, ◌^◌, ◌≤◌, ◌≡◌, refl, ap, ◌∙◌, inl, inr, true, false, List, ◌++◌, Option, none, Text, chars,
  Outcome, ok, err, ◌>>=◌, ltb, leb, ◌==◌, length, arith, dec_lt, Bool-cases, Option-cases,
  length-append, Outcome-cases, take-append_le, drop-append_le, append_assoc,
}
use yurt_playground.SnapshotZip.{ZipEntry, ZipError, central_signature, join_chunks}
use yurt_playground.SnapshotZip.Reader.{
  ZipStreamReader, next_chunk, fill, take_bytes, take_filled, next, next_entry, check_local,
  get_u16, get_u32, finish, finish_filled,
}
use yurt_playground.SnapshotZip.Reader.Flat.{
  Flat, rest_bytes, all_bytes, flat_of, flat_take, flat_next, flat_next_entry, flat_finish,
}
use yurt_playground.SnapshotZip.Reader.Fill.{IsFilled, fill-IsFilled, ended-all_bytes}

-- What a call returned, with the reader as the bytes that it has to come.
abbrev pub view {ℓ} :
    {A : Type ℓ} → Outcome ZipError (A × ZipStreamReader) → Outcome ZipError (A × Flat)
view (err thrown) = err thrown
view (ok (a, r)) = ok (a, flat_of r)

-- A chain of calls refines a chain when each call does.
pub view-bind {ℓ κ} :
    {A : Type ℓ} {B : Type κ} (call : Outcome ZipError (A × ZipStreamReader))
    (flat_call : Outcome ZipError (A × Flat))
    (after : A × ZipStreamReader → Outcome ZipError (B × ZipStreamReader))
    (flat_after : A × Flat → Outcome ZipError (B × Flat))
    → view call ≡ flat_call
    → ((a : A) (r : ZipStreamReader) → view (after (a, r)) ≡ flat_after (a, flat_of r))
    → view (call >>= after) ≡ (flat_call >>= flat_after)
view-bind (err thrown) flat_call after flat_after first same = ap (λ m. m >>= flat_after) first
view-bind (ok (a, r)) flat_call after flat_after first same =
    same a r ∙ ap (λ m. m >>= flat_after) first

take_filled-flat :
    (n : ℕ) (what : Text) (r : ZipStreamReader)
    → IsFilled n r
    → view (take_filled n what r) ≡ flat_take n what (flat_of r)
unfolding take_filled flat_take IsFilled
take_filled-flat n what r h = elim (dec_lt (length r.pending) n) [
  | yes short ↦
      let ended : next_chunk r.rest r.coming ≡ none = elim h [
        | inl long ↦ absurd (omega arith)
        | inr end ↦ end
      ] in
      let a : ltb (length r.pending) n ≡ true = ground arith in
      let b : ltb (length (all_bytes r)) n ≡ true = rw (ended-all_bytes r ended) a in rw (a, b) refl
  | no long ↦
      let tail : List ℕ = rest_bytes r.rest ++ join_chunks r.coming in
      let a : ltb (length r.pending) n ≡ false = ground arith in
      let b : ltb (length (all_bytes r)) n ≡ false = ground (arith, length-append r.pending tail) in
      rw
        (
          a,
          b,
          take-append_le n r.pending tail (omega arith),
          drop-append_le n r.pending tail (omega arith),
        )
        refl
]

pub take_bytes-flat :
    (n : ℕ) (what : Text) (r : ZipStreamReader)
    → view (take_bytes n what r) ≡ flat_take n what (flat_of r)
unfolding take_bytes
take_bytes-flat n what r =
    let (same, full) = fill-IsFilled n r in
    take_filled-flat n what (fill n r) full ∙ ap (flat_take n what) same

module _ (decode : List ℕ → Text) where
  next_entry-flat :
      (fixed : List ℕ) (r : ZipStreamReader)
      → view (next_entry decode (fixed, r)) ≡ flat_next_entry decode (fixed, flat_of r)
  unfolding next_entry flat_next_entry
  next_entry-flat fixed r = elim (Bool-cases (get_u32 0 fixed == central_signature)) [
    | inl e ↦
        rw e (ap over (append_assoc fixed r.pending (rest_bytes r.rest ++ join_chunks r.coming)))
    | inr e ↦ elim (Outcome-cases (check_local fixed)) [
      | inl (thrown, wrong) ↦ rw (e, wrong) refl
      | inr (_, right) ↦
          rw (e, right)
            (view-bind _ _ _ _ (take_bytes-flat (get_u16 26 fixed) (chars "a zip entry name") r)
              (λ name r'.
                view-bind _ _ _ _
                  (take_bytes-flat (get_u16 28 fixed) (chars "a zip entry header") r')
                  (λ extra r''. refl)))
    ]
  ]
    where
      over : List ℕ → Outcome ZipError (Option ZipEntry × Flat)
      over bytes = ok (none, record { bytes = bytes; entries = r.entries; check_crc = r.check_crc })

  -- A call of `next` returns the entry that the bytes to come start with, or what is wrong with them,
  -- and leaves those after its header.
  pub next-flat : (r : ZipStreamReader) → view (next decode r) ≡ flat_next decode (flat_of r)
  unfolding next flat_next
  next-flat r =
      view-bind _ _ _ _ (take_bytes-flat 30 (chars "a zip entry header") r)
        (λ fixed r'. next_entry-flat fixed r')

finish_filled-flat :
    (r : ZipStreamReader) → IsFilled (2 ^ 20) r → finish_filled r ≡ flat_finish (flat_of r)
unfolding finish_filled flat_finish IsFilled
finish_filled-flat r h = elim (Option-cases (next_chunk r.rest r.coming)) [
  | inl end ↦ rw (end, ended-all_bytes r end) refl
  | inr (chunk, more) ↦
      let tail : List ℕ = rest_bytes r.rest ++ join_chunks r.coming in
      let long : 2 ^ 20 ≤ length r.pending = elim h [ inl enough ↦ enough | inr end ↦ cc ] in
      let e : leb (2 ^ 20) (length (all_bytes r)) ≡ true =
        ground (arith, length-append r.pending tail) in
      rw (more, e) refl
]

pub finish-flat : (r : ZipStreamReader) → finish r ≡ flat_finish (flat_of r)
unfolding finish
finish-flat r =
    let (same, full) = fill-IsFilled (2 ^ 20) r in
    finish_filled-flat (fill (2 ^ 20) r) full ∙ ap flat_finish same
