-- ===== src/StoreLog/Record.antt =====
-- src/store_log.ts: the bytes of a log record (function head, and the reading of `#record`).
-- Parameters: `encode` and `decode`, the conversions between text and UTF-8 bytes (TextEncoder and
-- TextDecoder).
pub mod Prefix
pub mod Trip
use yurt_playground.Base.{
  ℕ, zero, suc, ◌+◌, ◌-◌, ◌*◌, ◌/◌, ◌%◌, Bool, true, false, not, ◌&&◌, ◌||◌, List, [], ◌∷◌, ◌++◌,
  Option, none, some, Text, ltb, leb, ◌==◌, if◌then◌else◌, length, take, drop, get_or,
}
use yurt_playground.StoreLog.{store_piece_bytes, max_safe_integer}

abbrev pub piece_tag : ℕ
piece_tag = 80

abbrev pub length_tag : ℕ
length_tag = 76

-- 1 + 1 + "content/".length + 20 + 8 + 4.
abbrev pub head_max : ℕ
head_max = 42

-- `n` bytes of a number, little-endian.
unfoldable pub little_endian : ℕ → ℕ → List ℕ
little_endian zero value = []
little_endian (suc n) value = value % 256 ∷ little_endian n (value / 256)

unfoldable pub read_little_endian : List ℕ → ℕ
read_little_endian [] = 0
read_little_endian (b ∷ bytes) = b + 256 * read_little_endian bytes

-- A piece's head has its size after the offset; a length's has none.
size_bytes : Option ℕ → List ℕ
size_bytes none = []
size_bytes (some size) = little_endian 4 size

module _ (encode : Text → List ℕ) where
  unfoldable pub head : ℕ → Text → ℕ → Option ℕ → List ℕ
  unfolding little_endian size_bytes
  head tag name value size =
      tag ∷ length (encode name) ∷ (encode name ++ (little_endian 8 value ++ size_bytes size))

pub data LogError : Type 0 where
  unknown_tag name_too_long piece_too_long : LogError

-- The record at the start of some bytes: not all there yet, refused, or a call and how many bytes it
-- takes. A number past the safe integers is `none`.
pub data Parsed : Type 0 where
  incomplete : Parsed
  refused : LogError → Parsed
  piece : Text → Option ℕ → List ℕ → ℕ → Parsed
  closing : Text → Option ℕ → ℕ → Parsed

safe_number : ℕ → Option ℕ
safe_number value = if ltb max_safe_integer value then none else some value

-- `n` bytes from `at` on.
abbrev pub slice : ℕ → ℕ → List ℕ → List ℕ
slice at n bytes = take n (drop at bytes)

module _ (decode : List ℕ → Text) where
  parse_piece : Text → ℕ → ℕ → ℕ → List ℕ → Parsed
  unfolding safe_number
  parse_piece name value head_end size bytes =
      if ltb store_piece_bytes size
      then refused piece_too_long
      else if ltb (length bytes) (head_end + size)
      then incomplete
      else piece name (safe_number value) (slice head_end size bytes) (head_end + size)

  parse_body : Bool → ℕ → ℕ → List ℕ → Parsed
  unfolding parse_piece safe_number read_little_endian
  parse_body is_piece name_end head_end bytes =
      if ltb head_max head_end
      then refused name_too_long
      else if ltb (length bytes) head_end
      then incomplete
      else (let name = decode (slice 2 (name_end - 2) bytes) in
          let value = read_little_endian (slice name_end 8 bytes) in
          if is_piece
          then parse_piece name value head_end (read_little_endian (slice (name_end + 8) 4 bytes))
              bytes
          else closing name (safe_number value) head_end)

  unfoldable pub parse : List ℕ → Parsed
  unfolding parse_body
  parse [] = incomplete
  parse (tag ∷ []) = incomplete
  parse (tag ∷ name_length ∷ rest) =
      if tag == piece_tag
      then parse_body true (2 + name_length) (2 + name_length + 8 + 4) (tag ∷ name_length ∷ rest)
      else if tag == length_tag
      then parse_body false (2 + name_length) (2 + name_length + 8) (tag ∷ name_length ∷ rest)
      else refused unknown_tag
