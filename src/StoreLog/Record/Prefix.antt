-- ===== src/StoreLog/Record/Prefix.antt =====
-- A record that is read from some bytes is read the same when more bytes follow.
use yurt_playground.Base.{
  ℕ, ◌+◌, ◌-◌, ◌≤◌, ◌≡◌, refl, ap, ◌∙◌, ◌≢◌, Bool, true, false, List, [], ◌∷◌, ◌++◌, Text, length,
  length-append, take, drop, arith, ltb, ◌==◌, inl, inr, Bool-cases, length-drop, take-append_le,
  drop-append_le,
}
use yurt_playground.StoreLog.Record.{
  Parsed, incomplete, refused, piece, closing, parse, parse_body, parse_piece, slice, head_max,
  read_little_endian, piece_tag, length_tag,
}

slice-prefix :
    (at n : ℕ) (xs ys : List ℕ) → at + n ≤ length xs → slice at n (xs ++ ys) ≡ slice at n xs
slice-prefix at n xs ys h =
    ap (take n) (drop-append_le at xs ys (omega arith))
    ∙ take-append_le n (drop at xs) ys (omega (arith, length-drop at xs))

module _ (decode : List ℕ → Text) (xs ys : List ℕ) where
  parse_piece-prefix :
      (name : Text) (value head_end size : ℕ)
      → parse_piece decode name value head_end size xs ≢ incomplete
      → parse_piece decode name value head_end size (xs ++ ys)
        ≡ parse_piece decode name value head_end size xs
  unfolding parse_piece
  parse_piece-prefix name value head_end size h =
      ground (arith, length-append xs ys, slice-prefix head_end size xs ys)

  enough_more : (n : ℕ) → ltb (length xs) n ≡ false → ltb (length (xs ++ ys)) n ≡ false
  enough_more n h = ground (arith, length-append xs ys)

  -- A record's body is read from bytes that are there.
  parse_body-prefix :
      (is_piece : Bool) (name_end head_end : ℕ)
      → 2 ≤ name_end
      → name_end + 8 ≤ head_end
      → (is_piece ≡ true → name_end + 12 ≤ head_end)
      → parse_body decode is_piece name_end head_end xs ≢ incomplete
      → parse_body decode is_piece name_end head_end (xs ++ ys)
        ≡ parse_body decode is_piece name_end head_end xs
  unfolding parse_body
  parse_body-prefix is_piece name_end head_end a b c h = elim (Bool-cases (ltb head_max head_end)) [
    | inl long ↦ rw long refl
    | inr short ↦ elim (Bool-cases (ltb (length xs) head_end)) [
      | inl few ↦ absurd (h (rw (short, few) refl))
      | inr enough ↦ there is_piece short enough c h
    ]
  ]
    where
      there :
          (is_piece : Bool)
          → ltb head_max head_end ≡ false
          → ltb (length xs) head_end ≡ false
          → (is_piece ≡ true → name_end + 12 ≤ head_end)
          → parse_body decode is_piece name_end head_end xs ≢ incomplete
          → parse_body decode is_piece name_end head_end (xs ++ ys)
            ≡ parse_body decode is_piece name_end head_end xs
      there true short enough c h =
          rw
            (
              short,
              enough,
              enough_more head_end enough,
              slice-prefix 2 (name_end - 2) xs ys (ground arith),
              slice-prefix name_end 8 xs ys (ground arith),
              slice-prefix (name_end + 8) 4 xs ys (ground (arith, c refl)),
            )
            (parse_piece-prefix (decode (slice 2 (name_end - 2) xs))
              (read_little_endian (slice name_end 8 xs)) head_end
              (read_little_endian (slice (name_end + 8) 4 xs)) (λ e. h (rw (short, enough) e)))
      there false short enough c h =
          rw
            (
              short,
              enough,
              enough_more head_end enough,
              slice-prefix 2 (name_end - 2) xs ys (ground arith),
              slice-prefix name_end 8 xs ys (ground arith),
            )
            refl

-- A record that is read from some bytes is read the same from any longer ones.
module _ (decode : List ℕ → Text) where
  pub parse-prefix :
      (xs ys : List ℕ) → parse decode xs ≢ incomplete → parse decode (xs ++ ys) ≡ parse decode xs
  unfolding parse
  parse-prefix [] ys h = absurd (h refl)
  parse-prefix (tag ∷ []) ys h = absurd (h refl)
  parse-prefix (tag ∷ n ∷ rest) ys h = elim (Bool-cases (tag == piece_tag)) [
    | inl is_piece ↦ rw is_piece (
        parse_body-prefix decode (tag ∷ n ∷ rest) ys true (2 + n) (2 + n + 8 + 4) (omega arith)
          (omega arith) (λ _. omega arith) (λ e. h (rw is_piece e)))
    | inr other ↦ elim (Bool-cases (tag == length_tag)) [
      | inl is_length ↦
          rw (other, is_length)
            (parse_body-prefix decode (tag ∷ n ∷ rest) ys false (2 + n) (2 + n + 8) (omega arith)
              (omega arith) (λ e. cc) (λ e. h (rw (other, is_length) e)))
      | inr unknown ↦ rw (other, unknown) refl
    ]
  ]

-- A record that is there takes ten bytes at least, all of them there.
abbrev pub IsWhole : ℕ → Parsed → Type 0
IsWhole n incomplete = Unit
IsWhole n (refused e) = Unit
IsWhole n (piece name offset bytes used) = (10 ≤ used) × (used ≤ n)
IsWhole n (closing name length used) = (10 ≤ used) × (used ≤ n)

module _ (decode : List ℕ → Text) where
  parse_body-IsWhole :
      (is_piece : Bool) (name_end head_end : ℕ) (bytes : List ℕ)
      → 10 ≤ head_end
      → IsWhole (length bytes) (parse_body decode is_piece name_end head_end bytes)
  unfolding parse_body parse_piece
  parse_body-IsWhole is_piece name_end head_end bytes h = ground arith

  pub parse-IsWhole : (bytes : List ℕ) → IsWhole (length bytes) (parse decode bytes)
  unfolding parse
  parse-IsWhole [] = tt
  parse-IsWhole (tag ∷ []) = tt
  parse-IsWhole (tag ∷ n ∷ rest) = ground (
    arith,
    parse_body-IsWhole true (2 + n) (2 + n + 8 + 4) (tag ∷ n ∷ rest),
    parse_body-IsWhole false (2 + n) (2 + n + 8) (tag ∷ n ∷ rest),
  )
