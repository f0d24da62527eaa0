-- ===== src/StoreLog/Record/Trip.antt =====
-- A record that the writer writes is the record that the reader reads.
use yurt_playground.Base.{
  ℕ, zero, suc, ◌+◌, ◌-◌, ◌/◌, ◌^◌, ◌≤◌, ◌<◌, ◌≡◌, refl, sym, ap, ◌∙◌, true, false, List, [], ◌∷◌,
  ◌++◌, none, some, Text, length, length-append, take, arith, ltb, take-append_eq, drop-append_add,
  append_assoc,
}
use native.Mathlib.Nat.{pow-suc}
use yurt_playground.StoreLog.{store_piece_bytes, max_safe_integer}
use yurt_playground.StoreLog.Record.{
  piece, closing, parse, parse_body, parse_piece, slice, head, little_endian, read_little_endian,
  size_bytes, safe_number, piece_tag, length_tag, head_max,
}

length-little_endian : (n value : ℕ) → length (little_endian n value) ≡ n
unfolding little_endian
length-little_endian zero value = refl
length-little_endian (suc n) value = ap suc (length-little_endian n (value / 256))

pub read_little_endian-little_endian :
    (n value : ℕ) → value < 256 ^ n → read_little_endian (little_endian n value) ≡ value
unfolding little_endian read_little_endian
read_little_endian-little_endian zero value h = omega arith
read_little_endian-little_endian (suc n) value h =
    omega (arith, read_little_endian-little_endian n (value / 256) (omega (arith, pow-suc 256 n)))

slice_at :
    (at n : ℕ) (xs ys zs : List ℕ)
    → at ≡ length xs
    → n ≡ length ys
    → slice at n (xs ++ (ys ++ zs)) ≡ ys
slice_at at n xs ys zs a b =
    ap (take n) (drop-append_add at xs (ys ++ zs) 0 (omega arith)) ∙ take-append_eq n ys zs b

slice_past :
    (at n k : ℕ) (xs ys : List ℕ) → at ≡ length xs + k → slice at n (xs ++ ys) ≡ slice k n ys
slice_past at n k xs ys e = ap (take n) (drop-append_add at xs ys k e)

module _ (decode : List ℕ → Text) where
  parse_body-parts :
      (name_end head_end : ℕ) (bytes name value : List ℕ)
      → ltb head_max head_end ≡ false
      → ltb (length bytes) head_end ≡ false
      → slice 2 (name_end - 2) bytes ≡ name
      → slice name_end 8 bytes ≡ value
      → ((size : List ℕ)
          → slice (name_end + 8) 4 bytes ≡ size
          → parse_body decode true name_end head_end bytes
            ≡ parse_piece decode
                (decode name)
                (read_little_endian value)
                head_end
                (read_little_endian size)
                bytes)
        × (parse_body decode false name_end head_end bytes
            ≡ closing (decode name) (safe_number (read_little_endian value)) head_end)
  unfolding parse_body
  parse_body-parts name_end head_end bytes name value a b c d =
      (λ size e. rw (a, b, c, d, e) refl, rw (a, b, c, d) refl)

  parse_piece-body :
      (name : Text) (value head_end size : ℕ) (bytes body : List ℕ)
      → size ≤ store_piece_bytes
      → head_end + size ≤ length bytes
      → slice head_end size bytes ≡ body
      → parse_piece decode name value head_end size bytes
        ≡ piece name (safe_number value) body (head_end + size)
  unfolding parse_piece
  parse_piece-body name value head_end size bytes body a b c = ground arith

  -- The bytes of a piece's record as the reader takes them apart.
  module _ (name value size body rest : List ℕ) where
    abbrev piece_bytes : List ℕ
    piece_bytes = piece_tag ∷ length name ∷ (name ++ (value ++ (size ++ (body ++ rest))))

    length-piece_bytes :
        length piece_bytes
        ≡ 2 + length name + length value + length size + length body + length rest
    length-piece_bytes = omega (
      arith,
      length-append name (value ++ (size ++ (body ++ rest))),
      length-append value (size ++ (body ++ rest)),
      length-append size (body ++ rest),
      length-append body rest,
    )

    read_piece :
        length name ≤ 28
        → length value ≡ 8
        → length size ≡ 4
        → read_little_endian size ≡ length body
        → length body ≤ store_piece_bytes
        → parse decode piece_bytes
          ≡ piece
              (decode name)
              (safe_number (read_little_endian value))
              body
              (2 + length name + 8 + 4 + length body)
    unfolding parse
    read_piece a b c d e =
        (parse_body-parts (2 + length name) (2 + length name + 8 + 4) piece_bytes name value
            (ground arith) (ground (arith, length-piece_bytes))
            (slice_at 2 (2 + length name - 2) tag_length name tail (omega arith) (omega arith))
            (slice_past (2 + length name) 8 (length name) tag_length (name ++ tail) (omega arith)
              ∙ slice_at (length name) 8 name value (size ++ (body ++ rest)) refl (sym b))).0
          size
          (slice_past (2 + length name + 8) 4 (length name + 8) tag_length (name ++ tail)
              (omega arith)
            ∙ slice_past (length name + 8) 4 8 name tail refl
            ∙ slice_at 8 4 value size (body ++ rest) (sym b) (sym c))
        ∙ parse_piece-body (decode name) (read_little_endian value) (2 + length name + 8 + 4)
            (read_little_endian size) piece_bytes body (omega (arith, d, e))
            (omega (arith, b, c, d, length-piece_bytes))
            (slice_past (2 + length name + 8 + 4) (read_little_endian size) (length name + 12)
                tag_length (name ++ tail) (omega arith)
              ∙ slice_past (length name + 12) (read_little_endian size) 12 name tail refl
              ∙ slice_past 12 (read_little_endian size) 4 value (size ++ (body ++ rest))
                  (omega (arith, b))
              ∙ slice_at 4 (read_little_endian size) size body rest (sym c) d)
        ∙ ap
            (λ k.
              piece (decode name) (safe_number (read_little_endian value)) body
                (2 + length name + 8 + 4 + k))
            d
      where
        tag_length : List ℕ
        tag_length = piece_tag ∷ length name ∷ []

        tail : List ℕ
        tail = value ++ (size ++ (body ++ rest))

  -- The bytes of a length's record as the reader takes them apart.
  module _ (name value rest : List ℕ) where
    abbrev closing_bytes : List ℕ
    closing_bytes = length_tag ∷ length name ∷ (name ++ (value ++ rest))

    length-closing_bytes : length closing_bytes ≡ 2 + length name + length value + length rest
    length-closing_bytes =
        omega (arith, length-append name (value ++ rest), length-append value rest)

    read_closing :
        length name ≤ 28
        → length value ≡ 8
        → parse decode closing_bytes
          ≡ closing (decode name) (safe_number (read_little_endian value)) (2 + length name + 8)
    unfolding parse
    read_closing a b =
        (parse_body-parts (2 + length name) (2 + length name + 8) closing_bytes name value
          (ground arith) (ground (arith, length-closing_bytes))
          (slice_at 2 (2 + length name - 2) (length_tag ∷ length name ∷ []) name (value ++ rest)
            (omega arith) (omega arith))
          (slice_past (2 + length name) 8 (length name) (length_tag ∷ length name ∷ [])
              (name ++ (value ++ rest)) (omega arith)
            ∙ slice_at (length name) 8 name value rest refl (sym b))).1

safe_number_safe : (n : ℕ) → n ≤ max_safe_integer → safe_number n ≡ some n
unfolding safe_number
safe_number_safe n h = ground arith

-- With `encode` and `decode` at a name: what the reader makes of a record that the writer wrote,
-- whatever follows it.
module _ (encode : Text → List ℕ) (decode : List ℕ → Text) (name : Text) where
  head_piece :
      (offset size : ℕ) (rest : List ℕ)
      → head encode piece_tag name offset (some size) ++ rest
        ≡ piece_tag
          ∷ length (encode name)
          ∷ (encode name ++ (little_endian 8 offset ++ (little_endian 4 size ++ rest)))
  unfolding head size_bytes
  head_piece offset size rest =
      ap (λ t. piece_tag ∷ length (encode name) ∷ t)
        (append_assoc (encode name) (little_endian 8 offset ++ little_endian 4 size) rest
          ∙ ap (λ t. encode name ++ t)
              (append_assoc (little_endian 8 offset) (little_endian 4 size) rest))

  head_closing :
      (n : ℕ) (rest : List ℕ)
      → head encode length_tag name n none ++ rest
        ≡ length_tag ∷ length (encode name) ∷ (encode name ++ (little_endian 8 n ++ rest))
  unfolding head size_bytes
  head_closing n rest =
      ap (λ t. length_tag ∷ length (encode name) ∷ t)
        (append_assoc (encode name) (little_endian 8 n ++ []) rest
          ∙ ap (λ t. encode name ++ t) (append_assoc (little_endian 8 n) [] rest))

  pub parse-head_piece :
      (offset : ℕ) (body rest : List ℕ)
      → decode (encode name) ≡ name
      → length (encode name) ≤ 28
      → offset ≤ max_safe_integer
      → length body ≤ store_piece_bytes
      → parse decode (head encode piece_tag name offset (some (length body)) ++ (body ++ rest))
        ≡ piece name (some offset) body (2 + length (encode name) + 8 + 4 + length body)
  parse-head_piece offset body rest named short safe small =
      ap (parse decode) (head_piece offset (length body) (body ++ rest))
      ∙ read_piece decode (encode name) (little_endian 8 offset) (little_endian 4 (length body))
          body rest short (length-little_endian 8 offset) (length-little_endian 4 (length body))
          (read_little_endian-little_endian 4 (length body) (omega arith)) small
      ∙ ap
          (λ t.
            piece t (safe_number (read_little_endian (little_endian 8 offset))) body
              (2 + length (encode name) + 8 + 4 + length body))
          named
      ∙ ap (λ t. piece name (safe_number t) body (2 + length (encode name) + 8 + 4 + length body))
          (read_little_endian-little_endian 8 offset (omega arith))
      ∙ ap (λ t. piece name t body (2 + length (encode name) + 8 + 4 + length body))
          (safe_number_safe offset safe)

  pub parse-head_closing :
      (n : ℕ) (rest : List ℕ)
      → decode (encode name) ≡ name
      → length (encode name) ≤ 28
      → n ≤ max_safe_integer
      → parse decode (head encode length_tag name n none ++ rest)
        ≡ closing name (some n) (2 + length (encode name) + 8)
  parse-head_closing n rest named short safe =
      ap (parse decode) (head_closing n rest)
      ∙ read_closing decode (encode name) (little_endian 8 n) rest short (length-little_endian 8 n)
      ∙ ap
          (λ t.
            closing t (safe_number (read_little_endian (little_endian 8 n)))
              (2 + length (encode name) + 8))
          named
      ∙ ap (λ t. closing name (safe_number t) (2 + length (encode name) + 8))
          (read_little_endian-little_endian 8 n (omega arith))
      ∙ ap (λ t. closing name t (2 + length (encode name) + 8)) (safe_number_safe n safe)

  pub length-head_piece :
      (offset size : ℕ)
      → length (head encode piece_tag name offset (some size)) ≡ 2 + length (encode name) + 8 + 4
  length-head_piece offset size = omega (
    arith,
    ap length (head_piece offset size []),
    length-append (head encode piece_tag name offset (some size)) [],
    length-append (encode name) (little_endian 8 offset ++ (little_endian 4 size ++ [])),
    length-append (little_endian 8 offset) (little_endian 4 size ++ []),
    length-append (little_endian 4 size) [],
    length-little_endian 8 offset,
    length-little_endian 4 size,
  )

  pub length-head_closing :
      (n : ℕ) → length (head encode length_tag name n none) ≡ 2 + length (encode name) + 8
  length-head_closing n = omega (
    arith,
    ap length (head_closing n []),
    length-append (head encode length_tag name n none) [],
    length-append (encode name) (little_endian 8 n ++ []),
    length-append (little_endian 8 n) [],
    length-little_endian 8 n,
  )
