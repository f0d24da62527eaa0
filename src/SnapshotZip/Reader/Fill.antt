-- ===== src/SnapshotZip/Reader/Fill.antt =====
-- Filling the buffer loses no byte, and stops with enough of them or at the end of the stream.
use yurt_playground.Base.{
  ℕ, zero, suc, ◌+◌, ◌-◌, ◌≤◌, ◌<◌, ◌≡◌, refl, sym, ap, ◌∙◌, ◌⊎◌, inl, inr, List, [], ◌∷◌, ◌++◌,
  Option, none, some, ltb, leb, ◌==◌, if◌then◌else◌, length, take, drop, min, arith, dec_lt,
  Bool-cases, length-append, length-take, take-append-drop, append_assoc, append-nil, take_all,
}
use yurt_playground.SnapshotZip.{join_chunks}
use yurt_playground.SnapshotZip.Reader.{
  ZipStreamReader, next_chunk, chunks_left, join_value, fill_with, fill_rounds, fill,
}
use yurt_playground.SnapshotZip.Reader.Flat.{rest_bytes, all_bytes, flat_of}

-- The chunk that comes next, and what is left: the bytes after the buffer.
pub next_chunk-Option :
    (rest : Option (List ℕ)) (coming : List (List ℕ))
    → ((next_chunk rest coming ≡ none) × (rest_bytes rest ++ join_chunks coming ≡ []))
      ⊎ ((value : List ℕ) × (after : List (List ℕ)) × (next_chunk rest coming ≡ some (value, after))
          × (rest_bytes rest ++ join_chunks coming ≡ value ++ join_chunks after)
          × (suc (length after) ≡ (elim rest [ none ↦ 0 | some _ ↦ 1 ]) + length coming))
unfolding next_chunk
next_chunk-Option (some rest) coming = inr (rest, coming, refl, refl, omega arith)
next_chunk-Option none [] = inl (refl, refl)
next_chunk-Option none (chunk ∷ coming) = inr (chunk, coming, refl, refl, omega arith)

pub length_zero : (xs : List ℕ) → length xs ≡ 0 → xs ≡ []
length_zero [] h = refl
length_zero (x ∷ xs) h = absurd (omega arith)

leftover : (need : ℕ) (value : List ℕ) → Option (List ℕ)
leftover need value = if ltb need (length value) then some (drop need value) else none

leftover_bytes :
    (need : ℕ) (value tail : List ℕ)
    → take need value ++ (rest_bytes (leftover need value) ++ tail) ≡ value ++ tail
unfolding leftover
leftover_bytes need value tail = elim (Bool-cases (ltb need (length value))) [
  | inl e ↦ rw e (
      sym (append_assoc (take need value) (drop need value) tail)
      ∙ ap (λ t. t ++ tail) (take-append-drop need value))
  | inr e ↦ rw e (ap (λ t. t ++ tail) (take_all need value (ground arith)))
]

-- After a round, the buffer is long enough or a chunk is gone.
IsFed : ℕ → ℕ → ZipStreamReader → Type 0
IsFed rounds bytes r = (bytes ≤ length r.pending) ⊎ (chunks_left r < rounds)

flat_of-join_value :
    (bytes : ℕ) (value : List ℕ) (coming : List (List ℕ)) (r : ZipStreamReader)
    → rest_bytes r.rest ++ join_chunks r.coming ≡ value ++ join_chunks coming
    → flat_of (join_value bytes value coming r) ≡ flat_of r
unfolding join_value leftover
flat_of-join_value bytes value coming r h = elim (Bool-cases (length r.pending == 0)) [
  | inl e ↦
      let empty : r.pending ≡ [] = length_zero r.pending (ground arith) in rw (e, h, empty) refl
  | inr e ↦
      let need : ℕ = min (bytes - length r.pending) (length value) in
      rw (e, h)
        (ap (λ t. record { bytes = t; entries = r.entries; check_crc = r.check_crc })
          (append_assoc r.pending (take need value)
              (rest_bytes (leftover need value) ++ join_chunks coming)
            ∙ ap (λ t. r.pending ++ t) (leftover_bytes need value (join_chunks coming))))
]

leftover_all : (need : ℕ) (value : List ℕ) → length value ≤ need → leftover need value ≡ none
unfolding leftover
leftover_all need value h = ground arith

join_value-IsFed :
    (rounds bytes : ℕ) (value : List ℕ) (coming : List (List ℕ)) (r : ZipStreamReader)
    → length r.pending < bytes
    → length coming < rounds
    → IsFed rounds bytes (join_value bytes value coming r)
unfolding join_value leftover IsFed chunks_left
join_value-IsFed rounds bytes value coming r short h = elim (Bool-cases (length r.pending == 0)) [
  | inl e ↦ rw e (inr (omega arith))
  | inr e ↦ elim (dec_lt (bytes - length r.pending) (length value)) [
    | yes more ↦ rw e (
        inl (
          omega (
            arith,
            length-append r.pending (take (min (bytes - length r.pending) (length value)) value),
            length-take (min (bytes - length r.pending) (length value)) value,
          )))
    | no all ↦
        rw (e, leftover_all (min (bytes - length r.pending) (length value)) value (omega arith))
          (inr (omega arith))
  ]
]

-- The buffer holds enough, or the stream is at its end.
unfoldable pub IsFilled : ℕ → ZipStreamReader → Type 0
IsFilled bytes r = (bytes ≤ length r.pending) ⊎ (next_chunk r.rest r.coming ≡ none)

fill_rounds-IsFilled :
    (rounds bytes : ℕ) (r : ZipStreamReader)
    → IsFed rounds bytes r
    → (flat_of (fill_rounds rounds bytes r) ≡ flat_of r)
      × IsFilled bytes (fill_rounds rounds bytes r)
unfolding fill_rounds fill_with IsFed IsFilled chunks_left
fill_rounds-IsFilled zero bytes r (inl h) = (refl, inl h)
fill_rounds-IsFilled zero bytes r (inr h) = absurd (omega arith)
fill_rounds-IsFilled (suc rounds) bytes r h = elim (Bool-cases (leb bytes (length r.pending))) [
  | inl e ↦ rw e (refl, inl (ground arith))
  | inr e ↦ elim (next_chunk-Option r.rest r.coming) [
    | inl (end, _) ↦ rw (e, end) (refl, inr end)
    | inr (value, after, found, bytes_same, fewer) ↦
        let joined = join_value bytes value after r in
        let short : length r.pending < bytes = ground arith in
        let (same, full) = fill_rounds-IsFilled rounds bytes joined (
          join_value-IsFed rounds bytes value after r short
            (elim h [ inl long ↦ absurd (omega arith) | inr lt ↦ omega arith ])) in
        rw (e, found) (same ∙ flat_of-join_value bytes value after r bytes_same, full)
  ]
]

pub fill-IsFilled :
    (bytes : ℕ) (r : ZipStreamReader)
    → (flat_of (fill bytes r) ≡ flat_of r) × IsFilled bytes (fill bytes r)
unfolding fill IsFed
fill-IsFilled bytes r = fill_rounds-IsFilled (suc (chunks_left r)) bytes r (inr (omega arith))

-- At the end of the stream, the buffer has all the bytes.
pub ended-all_bytes :
    (r : ZipStreamReader) → next_chunk r.rest r.coming ≡ none → all_bytes r ≡ r.pending
ended-all_bytes r end = elim (next_chunk-Option r.rest r.coming) [
  | inl (_, nothing) ↦ rw nothing (append-nil r.pending)
  | inr (value, after, found, _, _) ↦ cc
]
