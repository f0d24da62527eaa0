-- ===== src/Zmtp.antt =====
-- src/jupyter_transport.ts: ZMTP messages, encodeZmtpMessage and decodeZmtpFrames. `Connection` reads
-- them from a connection, and opens one.
pub mod Numbers
pub mod Trip
pub mod Connection
mod Tests
use yurt_playground.Base.{
  ℕ, zero, suc, ◌+◌, ◌-◌, ◌*◌, ◌/◌, ◌%◌, Bool, true, false, not, ◌&&◌, List, [], ◌∷◌, ◌++◌, Outcome,
  ok, err, ◌>>=◌, unless_throw, ltb, leb, ◌==◌, if◌then◌else◌, length, take, drop,
}

pub data ZmtpError : Type 0 where
  no_frame header_truncated body_truncated trailing_frames out_of_range too_large : ZmtpError
  closed invalid_flags not_expected : ZmtpError

-- `flags & 1` and `flags & 2`.
abbrev pub has_more : ℕ → Bool
has_more flags = flags % 2 == 1

abbrev pub is_long : ℕ → Bool
is_long flags = flags / 2 % 2 == 1

-- `n` bytes of a number, big-endian.
unfoldable pub big_endian : ℕ → ℕ → List ℕ
big_endian zero value = []
big_endian (suc n) value = big_endian n (value / 256) ++ value % 256 ∷ []

unfoldable pub read_big_endian : ℕ → List ℕ → ℕ
read_big_endian acc [] = acc
read_big_endian acc (b ∷ bytes) = read_big_endian (acc * 256 + b) bytes

abbrev pub max_length : ℕ
max_length = 9007199254740991

unfoldable pub encode_frame : Bool → List ℕ → List ℕ
encode_frame more frame =
    if ltb 255 (length frame)
    then (if more then 3 else 2) ∷ (big_endian 8 (length frame) ++ frame)
    else (if more then 1 else 0) ∷ length frame ∷ frame

unfoldable pub encode_frames : List (List ℕ) → List ℕ
encode_frames [] = []
encode_frames (frame ∷ []) = encode_frame false frame
encode_frames (frame ∷ more ∷ frames) = encode_frame true frame ++ encode_frames (more ∷ frames)

unfoldable pub encode_zmtp_message : List (List ℕ) → Outcome ZmtpError (List ℕ)
encode_zmtp_message [] = err no_frame
encode_zmtp_message (frame ∷ frames) = ok (encode_frames (frame ∷ frames))

-- A DataView refuses a read past its end.
unfoldable pub read_long_length : List ℕ → Outcome ZmtpError ℕ
read_long_length bytes =
    if ltb (length bytes) 8
    then err out_of_range
    else if ltb max_length (read_big_endian 0 (take 8 bytes))
    then err too_large
    else ok (read_big_endian 0 (take 8 bytes))

-- A frame's length, and the bytes that follow it.
unfoldable pub read_length : Bool → List ℕ → Outcome ZmtpError (ℕ × List ℕ)
read_length long [] = err header_truncated
read_length true (b ∷ bytes) = read_long_length (b ∷ bytes) >>= (λ n. ok (n, drop 8 (b ∷ bytes)))
read_length false (b ∷ bytes) = ok (b, bytes)

after_body :
    (List ℕ → Outcome ZmtpError (List (List ℕ)))
    → Bool
    → ℕ × List ℕ
    → Outcome ZmtpError (List (List ℕ))
after_body next more (n, bytes) =
    if ltb (length bytes) n
    then err body_truncated
    else if not more && not (length (drop n bytes) == 0)
    then err trailing_frames
    else next (drop n bytes) >>= (λ frames. ok (take n bytes ∷ frames))

-- A frame has two bytes at least: as many rounds as bytes are enough.
decode_rounds : ℕ → List ℕ → Outcome ZmtpError (List (List ℕ))
unfolding after_body
decode_rounds rounds [] = ok []
decode_rounds zero (flags ∷ bytes) = err header_truncated
decode_rounds (suc rounds) (flags ∷ bytes) =
    read_length (is_long flags) bytes >>= after_body (decode_rounds rounds) (has_more flags)

unfoldable pub decode_zmtp_frames : List ℕ → Outcome ZmtpError (List (List ℕ))
unfolding decode_rounds
decode_zmtp_frames bytes = decode_rounds (length bytes) bytes
