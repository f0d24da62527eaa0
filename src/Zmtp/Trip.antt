-- ===== src/Zmtp/Trip.antt =====
-- A message that is encoded is the message that is decoded.
use yurt_playground.Base.{
  ℕ, zero, suc, ◌≤◌, ◌≡◌, refl, sym, ap, ◌∙◌, Bool, true, false, List, [], ◌∷◌, ◌++◌, Outcome, ok,
  ◌>>=◌, All, length, length-append, drop, take-append_length, drop-append_length, drop-append_add,
  append_assoc, append-nil, arith, ltb, inl, inr, Bool-cases,
}
use yurt_playground.Zmtp.{
  ZmtpError, has_more, is_long, big_endian, encode_frame, encode_frames, encode_zmtp_message,
  read_long_length, read_length, after_body, decode_rounds, decode_zmtp_frames, max_length,
}
use yurt_playground.Zmtp.Numbers.{length-big_endian, read_long_length-big_endian}

read_length-long :
    (bytes : List ℕ) (n : ℕ)
    → 8 ≤ length bytes
    → read_long_length bytes ≡ ok n
    → read_length true bytes ≡ ok (n, drop 8 bytes)
unfolding read_length
read_length-long [] n h e = absurd (omega arith)
read_length-long (b ∷ bytes) n h e = rw e refl

-- A frame's bytes: its flags, then a length that is read as it was written, then the frame.
abbrev pub Split : Bool → List ℕ → List ℕ → Type 0
Split more frame rest =
    (flags : ℕ) × (tail : List ℕ) × (encode_frame more frame ++ rest ≡ flags ∷ tail)
    × (has_more flags ≡ more)
    × (read_length (is_long flags) tail ≡ ok (length frame, frame ++ rest))

read_length-frame :
    (frame rest : List ℕ)
    → length frame ≤ max_length
    → read_length true ((big_endian 8 (length frame) ++ frame) ++ rest)
      ≡ ok (length frame, frame ++ rest)
read_length-frame frame rest h =
    ap (read_length true) (append_assoc (big_endian 8 (length frame)) frame rest)
    ∙ read_length-long (big_endian 8 (length frame) ++ (frame ++ rest)) (length frame)
        (omega (
          arith,
          length-append (big_endian 8 (length frame)) (frame ++ rest),
          length-big_endian 8 (length frame),
        ))
        (read_long_length-big_endian (length frame) (frame ++ rest) h)
    ∙ ap (λ t. ok (length frame, t))
        (drop-append_add 8 (big_endian 8 (length frame)) (frame ++ rest) 0
          (omega (arith, length-big_endian 8 (length frame))))

pub encode_frame-Split :
    (more : Bool) (frame rest : List ℕ) → length frame ≤ max_length → Split more frame rest
unfolding encode_frame read_length
encode_frame-Split more frame rest h = elim (Bool-cases (ltb 255 (length frame))) [
  | inl long ↦ long_split more long
  | inr short ↦ short_split more short
]
  where
    long_split : (more : Bool) → ltb 255 (length frame) ≡ true → Split more frame rest
    long_split true long = (
      3,
      (big_endian 8 (length frame) ++ frame) ++ rest,
      rw long refl,
      refl,
      read_length-frame frame rest h,
    )
    long_split false long = (
      2,
      (big_endian 8 (length frame) ++ frame) ++ rest,
      rw long refl,
      refl,
      read_length-frame frame rest h,
    )

    short_split : (more : Bool) → ltb 255 (length frame) ≡ false → Split more frame rest
    short_split true short = (1, length frame ∷ (frame ++ rest), rw short refl, refl, refl)
    short_split false short = (0, length frame ∷ (frame ++ rest), rw short refl, refl, refl)

after_body-more :
    (next : List ℕ → Outcome ZmtpError (List (List ℕ))) (frame rest : List ℕ)
    → after_body next true (length frame, frame ++ rest)
      ≡ (next rest >>= (λ frames. ok (frame ∷ frames)))
unfolding after_body
after_body-more next frame rest =
    rw (take-append_length frame rest, drop-append_length frame rest, enough) refl
  where
    enough : ltb (length (frame ++ rest)) (length frame) ≡ false
    enough = ground (arith, length-append frame rest)

after_body-last :
    (next : List ℕ → Outcome ZmtpError (List (List ℕ))) (frame : List ℕ)
    → next [] ≡ ok []
    → after_body next false (length frame, frame ++ []) ≡ ok (frame ∷ [])
unfolding after_body
after_body-last next frame e =
    rw (take-append_length frame [], drop-append_length frame [], enough, e) refl
  where
    enough : ltb (length (frame ++ [])) (length frame) ≡ false
    enough = ground (arith, length-append frame [])

decode_rounds_nil : (rounds : ℕ) → decode_rounds rounds [] ≡ ok []
unfolding decode_rounds
decode_rounds_nil zero = refl
decode_rounds_nil (suc rounds) = refl

decode_rounds-Split :
    (rounds : ℕ) (more : Bool) (frame rest : List ℕ)
    → length frame ≤ max_length
    → decode_rounds (suc rounds) (encode_frame more frame ++ rest)
      ≡ after_body (decode_rounds rounds) more (length frame, frame ++ rest)
unfolding decode_rounds
decode_rounds-Split rounds more frame rest h =
    let split = encode_frame-Split more frame rest h in rw (split.2, split.4, split.3) refl

decode_rounds-encode_frames :
    (rounds : ℕ) (frame : List ℕ) (frames : List (List ℕ))
    → length (frame ∷ frames) ≤ rounds
    → All (λ f. length f ≤ max_length) (frame ∷ frames)
    → decode_rounds rounds (encode_frames (frame ∷ frames)) ≡ ok (frame ∷ frames)
unfolding encode_frames
decode_rounds-encode_frames zero frame frames h small = absurd (omega arith)
decode_rounds-encode_frames (suc rounds) frame [] h small =
    ap (decode_rounds (suc rounds)) (sym (append-nil (encode_frame false frame)))
    ∙ decode_rounds-Split rounds false frame [] small.0
    ∙ after_body-last (decode_rounds rounds) frame (decode_rounds_nil rounds)
decode_rounds-encode_frames (suc rounds) frame (more ∷ frames) h small =
    decode_rounds-Split rounds true frame (encode_frames (more ∷ frames)) small.0
    ∙ after_body-more (decode_rounds rounds) frame (encode_frames (more ∷ frames))
    ∙ ap (λ m. m >>= (λ rest. ok (frame ∷ rest)))
        (decode_rounds-encode_frames rounds more frames (omega arith) small.1)

encode_frame_nonempty : (more : Bool) (frame : List ℕ) → 2 ≤ length (encode_frame more frame)
unfolding encode_frame
encode_frame_nonempty more frame =
    ground
      (arith, length-append (big_endian 8 (length frame)) frame, length-big_endian 8 (length frame))

pub length-encode_frames :
    (frame : List ℕ) (frames : List (List ℕ))
    → length (frame ∷ frames) ≤ length (encode_frames (frame ∷ frames))
unfolding encode_frames
length-encode_frames frame [] = omega (arith, encode_frame_nonempty false frame)
length-encode_frames frame (more ∷ frames) = omega (
  arith,
  encode_frame_nonempty true frame,
  length-encode_frames more frames,
  length-append (encode_frame true frame) (encode_frames (more ∷ frames)),
)

-- Every message that is encoded, of frames no longer than the largest safe number, is decoded to the
-- same frames.
pub decode_zmtp_frames-encode_zmtp_message :
    (frames : List (List ℕ)) (bytes : List ℕ)
    → All (λ f. length f ≤ max_length) frames
    → encode_zmtp_message frames ≡ ok bytes
    → decode_zmtp_frames bytes ≡ ok frames
unfolding decode_zmtp_frames encode_zmtp_message
decode_zmtp_frames-encode_zmtp_message [] bytes small e = cc
decode_zmtp_frames-encode_zmtp_message (frame ∷ frames) bytes small e =
    ap (λ (m : Outcome ZmtpError (List ℕ)). m >>= (λ b. decode_rounds (length b) b)) (sym e)
    ∙ decode_rounds-encode_frames (length (encode_frames (frame ∷ frames))) frame frames
        (length-encode_frames frame frames) small
