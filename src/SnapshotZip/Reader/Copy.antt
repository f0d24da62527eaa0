-- ===== src/SnapshotZip/Reader/Copy.antt =====
-- What `#copy` gives, however the stream is cut, is the entry's bytes.
use yurt_playground.Base.{
  ℕ, zero, suc, ◌+◌, ◌-◌, ◌≤◌, ◌<◌, ◌≡◌, refl, sym, ap, ◌∙◌, ◌⊎◌, inl, inr, Bool, true, false, List,
  [], ◌∷◌, ◌++◌, none, Text, Outcome, ok, err, ◌>>=◌, ltb, leb, ◌==◌, if◌then◌else◌, length, take,
  drop, min, arith, dec_lt, Bool-cases, length-append, length-take, length-drop, take-append_le,
  drop-append_le,
}
use yurt_playground.SnapshotZip.{ZipError, truncated_of, join_chunks}
use yurt_playground.SnapshotZip.Reader.{
  ZipStreamReader, Given, chunks_left, refill, refilled, give_chunk, copy_rounds, copy, chunks_of,
}
use yurt_playground.SnapshotZip.Reader.Flat.{
  Flat, rest_bytes, all_bytes, flat_of, flat_part, flat_copy,
}
use yurt_playground.SnapshotZip.Reader.Fill.{next_chunk-Option, length_zero}

-- What was given, as one run of bytes.
abbrev pub view_given :
    Outcome ZipError (List Given × ZipStreamReader) → Outcome ZipError (List ℕ × Flat)
view_given (err thrown) = err thrown
view_given (ok (given, r)) = ok (join_chunks (chunks_of given), flat_of r)

abbrev before : List ℕ → Outcome ZipError (List ℕ × Flat) → Outcome ZipError (List ℕ × Flat)
before chunk (err thrown) = err thrown
before chunk (ok (bytes, f)) = ok (chunk ++ bytes, f)

take_add :
    (k m : ℕ) (xs : List ℕ) → k ≤ length xs → take k xs ++ take m (drop k xs) ≡ take (k + m) xs
take_add zero m xs h = ap (λ t. take t xs) (omega arith)
take_add (suc k) m [] h = absurd (omega arith)
take_add (suc k) m (x ∷ xs) h =
    ap (λ t. x ∷ t) (take_add k m xs (omega arith))
    ∙ ap (λ t. take t (x ∷ xs)) {x = suc (k + m)} (omega arith)

drop_add : (k m : ℕ) (xs : List ℕ) → k ≤ length xs → drop m (drop k xs) ≡ drop (k + m) xs
drop_add zero m xs h = ap (λ t. drop t xs) (omega arith)
drop_add (suc k) m [] h = absurd (omega arith)
drop_add (suc k) m (x ∷ xs) h =
    drop_add k m xs (omega arith) ∙ ap (λ t. drop t (x ∷ xs)) {x = suc (k + m)} (omega arith)

-- A part of the bytes is its start, before the part of what follows.
flat_part_split :
    (thrown : ZipError) (k n : ℕ) (f : Flat)
    → k ≤ n
    → k ≤ length f.bytes
    → before (take k f.bytes) (flat_part thrown (n - k) (record f { bytes = drop k f.bytes }))
      ≡ flat_part thrown n f
flat_part_split thrown k n f h l = elim (dec_lt (length f.bytes) n) [
  | yes short ↦
      let a : ltb (length f.bytes) n ≡ true = ground arith in
      let b : ltb (length (drop k f.bytes)) (n - k) ≡ true =
        ground (arith, length-drop k f.bytes) in
      rw (a, b) refl
  | no long ↦
      let a : ltb (length f.bytes) n ≡ false = ground arith in
      let b : ltb (length (drop k f.bytes)) (n - k) ≡ false =
        ground (arith, length-drop k f.bytes) in
      let e : k + (n - k) ≡ n = omega arith in
      rw (a, b, take_add k (n - k) f.bytes l, drop_add k (n - k) f.bytes l, e) refl
]

rounds_needed : ZipStreamReader → ℕ
rounds_needed r = chunks_left r + (if length r.pending == 0 then 0 else 1)

refill-Outcome :
    (thrown : ZipError) (r : ZipStreamReader)
    → ((refill thrown r ≡ err thrown) × (all_bytes r ≡ []))
      ⊎ ((r' : ZipStreamReader) × (refill thrown r ≡ ok r')
          × (flat_of r' ≡ flat_of r)
          × (chunks_left r' < rounds_needed r))
unfolding refill refilled chunks_left rounds_needed
refill-Outcome thrown r = elim (Bool-cases (length r.pending == 0)) [
  | inl e ↦
      let empty : r.pending ≡ [] = length_zero r.pending (ground arith) in
      elim (next_chunk-Option r.rest r.coming) [
        | inl (end, nothing) ↦ inl (rw (e, end) refl, rw (empty, nothing) refl)
        | inr (value, after, found, same, fewer) ↦ inr (
          record r { pending = value; rest = none; coming = after },
          rw (e, found) refl,
          rw (empty, same) refl,
          omega arith,
        )
      ]
  | inr e ↦ inr (r, rw e refl, refl, rw e (omega arith))
]

-- The result of a copy that has `had` of its bytes.
copied_from : ℕ → Text → ℕ → Flat → Outcome ZipError (List ℕ × Flat)
copied_from n what had f = flat_part (truncated_of (had + length f.bytes) n what) (n - had) f

done-copied_from :
    (n had : ℕ) (what : Text) (f : Flat) → n ≤ had → copied_from n what had f ≡ ok ([], f)
unfolding copied_from
done-copied_from n had what f h =
    let e : n - had ≡ 0 = omega arith in
    let z : ltb (length f.bytes) 0 ≡ false = ground arith in rw (e, z) refl

nothing-copied_from :
    (n had : ℕ) (what : Text) (f : Flat)
    → f.bytes ≡ []
    → had < n
    → copied_from n what had f ≡ err (truncated_of had n what)
unfolding copied_from
nothing-copied_from n had what f nothing h =
    let size : length f.bytes ≡ 0 = rw nothing refl in
    let short : ltb (length f.bytes) (n - had) ≡ true = ground arith in
    let all : had + length f.bytes ≡ had = omega arith in rw (short, all) refl

view_given-give :
    (chunk : List ℕ) (had : ℕ) (m : Outcome ZipError (List Given × ZipStreamReader))
    → view_given (m >>= (λ more. ok (record { chunk = chunk; offset = had } ∷ more.0, more.1)))
      ≡ before chunk (view_given m)
unfolding chunks_of
view_given-give chunk had (err thrown) = refl
view_given-give chunk had (ok (given, r)) = refl

-- The rounds that are left are enough, or nothing is left to copy.
HasRounds : ℕ → ℕ → ℕ → ZipStreamReader → Type 0
HasRounds rounds n had r = (n ≤ had) ⊎ (rounds_needed r < rounds)

give_split :
    (n had k j : ℕ) (what : Text) (p tail : List ℕ) (entries : ℕ) (check_crc : Bool)
    → j ≡ k
    → had + k ≤ n
    → k ≤ length p
    → before (take k p) (
        copied_from n what
          (had + j)
          (record { bytes = drop j p ++ tail; entries = entries; check_crc = check_crc }))
      ≡ copied_from n what had
          (record { bytes = p ++ tail; entries = entries; check_crc = check_crc })
unfolding copied_from
give_split n had k j what p tail entries check_crc e h l =
    let less : n - (had + k) ≡ n - had - k = omega arith in
    let all : had + k + length (drop k (p ++ tail)) ≡ had + length (p ++ tail) =
      omega (arith, length-drop k (p ++ tail), length-append p tail) in
    rw (e, ← drop-append_le k p tail l, ← take-append_le k p tail l, less, all)
      (flat_part_split (truncated_of (had + length (p ++ tail)) n what) k (n - had)
        (record { bytes = p ++ tail; entries = entries; check_crc = check_crc }) (omega arith)
        (omega (arith, length-append p tail)))

-- A chunk is the whole buffer, or ends the copy.
give_chunk-HasRounds :
    (rounds n had : ℕ) (r : ZipStreamReader)
    → had < n
    → chunks_left r < rounds
    → let size = length (take (min (n - had) (length r.pending)) r.pending) in
      HasRounds rounds n (had + size) (record r { pending = drop size r.pending })
unfolding HasRounds rounds_needed chunks_left
give_chunk-HasRounds rounds n had r lt enough =
    let size : ℕ = length (take (min (n - had) (length r.pending)) r.pending) in
    let k = length-take (min (n - had) (length r.pending)) r.pending in
    elim (dec_lt (n - had) (length r.pending)) [
      | yes ends ↦ inl (omega arith)
      | no whole ↦
          let e : (length (drop size r.pending) == 0) ≡ true =
            ground (arith, length-drop size r.pending, k) in
          inr (rw e (omega arith))
    ]

give_chunk-flat :
    (next : ℕ → ZipStreamReader → Outcome ZipError (List Given × ZipStreamReader))
    (rounds n had : ℕ) (what : Text) (r : ZipStreamReader)
    → had < n
    → chunks_left r < rounds
    → ((k : ℕ) (r' : ZipStreamReader)
        → k ≤ n
        → HasRounds rounds n k r'
        → view_given (next k r') ≡ copied_from n what k (flat_of r'))
    → view_given (give_chunk next n had r) ≡ copied_from n what had (flat_of r)
unfolding give_chunk
give_chunk-flat next rounds n had what r lt enough later =
    let p : List ℕ = r.pending in
    let k : ℕ = min (n - had) (length p) in
    let size : length (take k p) ≡ k = omega (arith, length-take k p) in
    view_given-give (take k p) had _
    ∙ (ap (before (take k p)) (
          later (had + length (take k p)) (record r { pending = drop (length (take k p)) p })
            (omega arith) (give_chunk-HasRounds rounds n had r lt enough))
        ∙ give_split n had k (length (take k p)) what p (rest_bytes r.rest ++ join_chunks r.coming)
            r.entries r.check_crc size (omega arith) (omega arith))

copy_rounds-flat :
    (rounds n had : ℕ) (what : Text) (r : ZipStreamReader)
    → had ≤ n
    → HasRounds rounds n had r
    → view_given (copy_rounds rounds n what had r) ≡ copied_from n what had (flat_of r)
unfolding copy_rounds HasRounds rounds_needed chunks_of
copy_rounds-flat zero n had what r h (inl done) = sym (done-copied_from n had what (flat_of r) done)
copy_rounds-flat zero n had what r h (inr lt) = absurd (omega arith)
copy_rounds-flat (suc rounds) n had what r h enough = elim (Bool-cases (leb n had)) [
  | inl e ↦ rw e (sym (done-copied_from n had what (flat_of r) (ground arith)))
  | inr e ↦ elim (refill-Outcome (truncated_of had n what) r) [
    | inl (refused, nothing) ↦
        rw (e, refused) (sym (nothing-copied_from n had what (flat_of r) nothing (ground arith)))
    | inr (r', found, same, fewer) ↦
        rw (e, found)
          (give_chunk-flat (copy_rounds rounds n what) rounds n had what r' (ground arith)
              (ground arith) (λ k r'' le rest. copy_rounds-flat rounds n k what r'' le rest)
            ∙ ap (copied_from n what had) same)
  ]
]

pub copy-flat :
    (n : ℕ) (what : Text) (r : ZipStreamReader)
    → view_given (copy n what r) ≡ flat_copy n what (flat_of r)
unfolding copy flat_copy copied_from HasRounds rounds_needed
copy-flat n what r =
    copy_rounds-flat (suc (suc (chunks_left r))) n 0 what r (omega arith) (inr (ground arith))
    ∙ (let a : n - 0 ≡ n = omega arith in
        let b : 0 + length (all_bytes r) ≡ length (all_bytes r) = omega arith in rw (a, b) refl)
