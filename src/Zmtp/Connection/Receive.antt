-- ===== src/Zmtp/Connection/Receive.antt =====
-- What a connection reads does not depend on the sizes in which its bytes come.
use yurt_playground.Base.{
  ℕ, zero, suc, ◌-◌, ◌≤◌, ◌≡◌, refl, sym, ap, ◌∙◌, Bool, true, false, List, [], ◌∷◌, ◌++◌, Outcome,
  ok, err, ◌>>=◌, All, length, length-append, take, drop, take-append_le, drop-append_le,
  take-append-drop, append_assoc, append-nil, arith, length-take, length-drop, Bool-cases, inl, inr,
  ltb,
}
use yurt_playground.Zmtp.{
  ZmtpError, encode_frame, encode_frames, encode_zmtp_message, max_length, big_endian,
  read_long_length, has_more, is_long,
}
use yurt_playground.Zmtp.Numbers.{length-big_endian, read_long_length-big_endian}
use yurt_playground.Zmtp.Trip.{length-encode_frames}
use yurt_playground.Zmtp.Connection.{
  Conn, next_size, next_sizes, read, got, read_rounds, read_exactly, receive, receive_rounds,
  receive_length, receive_more, first,
}

abbrev pub conn_of : List ℕ → List ℕ → List ℕ → Conn
conn_of incoming sizes sent = record { incoming = incoming; sizes = sizes; sent = sent }

next_size-bounds :
    (sizes : List ℕ) (n : ℕ) → (1 ≤ next_size sizes (suc n)) × (next_size sizes (suc n) ≤ suc n)
unfolding next_size
next_size-bounds [] n = (omega arith, omega arith)
next_size-bounds (size ∷ sizes) n = (omega arith, omega arith)

got-some :
    (next : ℕ → Conn → Outcome ZmtpError (List ℕ × Conn)) (n : ℕ) (chunk : List ℕ) (conn : Conn)
    → 1 ≤ length chunk
    → got next n (chunk, conn)
      ≡ (next (n - length chunk) conn >>= (λ rest. ok (chunk ++ rest.0, rest.1)))
unfolding got
got-some next n [] conn h = absurd (omega arith)
got-some next n (b ∷ chunk) conn h = refl

read-append :
    (n k : ℕ) (bytes rest sizes sent : List ℕ)
    → next_size sizes n ≡ k
    → k ≤ length bytes
    → read n (conn_of (bytes ++ rest) sizes sent)
      ≡ (take k bytes, conn_of (drop k bytes ++ rest) (next_sizes sizes) sent)
unfolding read
read-append n k bytes rest sizes sent e h =
    rw (e, take-append_le k bytes rest h, drop-append_le k bytes rest h) refl

read_rounds-append :
    (rounds : ℕ) (bytes rest sizes sent : List ℕ)
    → length bytes ≤ rounds
    → (left : List ℕ) × (read_rounds rounds (length bytes) (conn_of (bytes ++ rest) sizes sent)
        ≡ ok (bytes, conn_of rest left sent))
unfolding read_rounds
read_rounds-append rounds [] rest sizes sent h = (sizes, refl)
read_rounds-append zero (b ∷ bytes) rest sizes sent h = absurd (omega arith)
read_rounds-append (suc rounds) (b ∷ bytes) rest sizes sent h =
    let k : ℕ = next_size sizes (suc (length bytes)) in
    let bounds = next_size-bounds sizes (length bytes) in
    let later =
      read_rounds-append rounds (drop k (b ∷ bytes)) rest (next_sizes sizes) sent
        (omega (arith, bounds, length-drop k (b ∷ bytes))) in
    let conn : Conn = conn_of (drop k (b ∷ bytes) ++ rest) (next_sizes sizes) sent in
    (
      later.0,
      ap (got (read_rounds rounds) (suc (length bytes)))
            (read-append (suc (length bytes)) k (b ∷ bytes) rest sizes sent refl bounds.1)
          ∙ got-some (read_rounds rounds) (suc (length bytes)) (take k (b ∷ bytes)) conn
              (omega (arith, bounds, length-take k (b ∷ bytes)))
          ∙ ap
              (λ m.
                read_rounds rounds m conn >>= (λ more. ok (take k (b ∷ bytes) ++ more.0, more.1)))
              (what_is_left k)
          ∙ ap (λ m. m >>= (λ more. ok (take k (b ∷ bytes) ++ more.0, more.1))) later.1
          ∙ ap (λ t. ok (t, conn_of rest later.0 sent)) (take-append-drop k (b ∷ bytes)),
    )
  where
    what_is_left :
        (k : ℕ) → suc (length bytes) - length (take k (b ∷ bytes)) ≡ length (drop k (b ∷ bytes))
    what_is_left k = omega (arith, length-take k (b ∷ bytes), length-drop k (b ∷ bytes))

-- Bytes that are to come are read, whatever follows them and in whatever sizes they come.
abbrev pub Reads : ℕ → List ℕ → List ℕ → List ℕ → List ℕ → Type 0
Reads n bytes rest sizes sent =
    (left : List ℕ) × (read_exactly n (conn_of (bytes ++ rest) sizes sent)
      ≡ ok (bytes, conn_of rest left sent))

pub read_exactly-append :
    (n : ℕ) (bytes rest sizes sent : List ℕ) → n ≡ length bytes → Reads n bytes rest sizes sent
unfolding read_exactly
read_exactly-append n bytes rest sizes sent e =
    rw e (read_rounds-append (length bytes) bytes rest sizes sent (omega arith))

-- A frame's length is received.
abbrev Gets : Bool → List ℕ → ℕ → Type 0
Gets long header n =
    (tail sizes sent : List ℕ)
    → (left : List ℕ) × (receive_length long (conn_of (header ++ tail) sizes sent)
        ≡ ok (n, conn_of tail left sent))

long-Gets : (n : ℕ) → n ≤ max_length → Gets true (big_endian 8 n) n
unfolding receive_length
long-Gets n h tail sizes sent =
    let header =
      read_exactly-append 8 (big_endian 8 n) tail sizes sent (sym (length-big_endian 8 n)) in
    let known : read_long_length (big_endian 8 n) ≡ ok n =
      ap read_long_length (sym (append-nil (big_endian 8 n)))
      ∙ read_long_length-big_endian n [] h in
    (header.0, rw (header.1, known) refl)

short-Gets : (n : ℕ) → Gets false (n ∷ []) n
unfolding receive_length first
short-Gets n tail sizes sent =
    let header = read_exactly-append 1 (n ∷ []) tail sizes sent refl in (header.0, rw header.1 refl)

abbrev Framed : Bool → List ℕ → Type 0
Framed more frame =
    (flags : ℕ) × (header : List ℕ) × (encode_frame more frame ≡ flags ∷ (header ++ frame))
    × (has_more flags ≡ more)
    × Gets (is_long flags) header (length frame)

encode_frame-Framed : (more : Bool) (frame : List ℕ) → length frame ≤ max_length → Framed more frame
unfolding encode_frame
encode_frame-Framed more frame h = elim (Bool-cases (ltb 255 (length frame))) [
  | inl long ↦ by_more more long
  | inr short ↦ by_more_short more short
]
  where
    by_more : (more : Bool) → ltb 255 (length frame) ≡ true → Framed more frame
    by_more true long =
        (3, big_endian 8 (length frame), rw long refl, refl, long-Gets (length frame) h)
    by_more false long =
        (2, big_endian 8 (length frame), rw long refl, refl, long-Gets (length frame) h)

    by_more_short : (more : Bool) → ltb 255 (length frame) ≡ false → Framed more frame
    by_more_short true short =
        (1, length frame ∷ [], rw short refl, refl, short-Gets (length frame))
    by_more_short false short =
        (0, length frame ∷ [], rw short refl, refl, short-Gets (length frame))

receive_rounds-frame :
    (rounds : ℕ) (more : Bool) (frame rest sizes sent : List ℕ)
    → length frame ≤ max_length
    → (left : List ℕ) × (receive_rounds
          (suc rounds)
          (conn_of (encode_frame more frame ++ rest) sizes sent)
        ≡ receive_more (receive_rounds rounds) more (frame, conn_of rest left sent))
unfolding receive_rounds first
receive_rounds-frame rounds more frame rest sizes sent h =
    let framed = encode_frame-Framed more frame h in
    let flags =
      read_exactly-append 1 (framed.0 ∷ []) (framed.1 ++ (frame ++ rest)) sizes sent refl in
    let header = framed.4 (frame ++ rest) flags.0 sent in
    let body = read_exactly-append (length frame) frame rest header.0 sent refl in
    (
      body.0,
      rw (framed.2, append_assoc framed.1 frame rest, flags.1, header.1, body.1, framed.3) refl,
    )

receive_rounds-encode_frames :
    (rounds : ℕ) (frame : List ℕ) (frames : List (List ℕ)) (rest sizes sent : List ℕ)
    → length (frame ∷ frames) ≤ rounds
    → All (λ f. length f ≤ max_length) (frame ∷ frames)
    → (left : List ℕ) × (receive_rounds rounds
          (conn_of (encode_frames (frame ∷ frames) ++ rest) sizes sent)
        ≡ ok (frame ∷ frames, conn_of rest left sent))
unfolding encode_frames receive_more
receive_rounds-encode_frames zero frame frames rest sizes sent h small = absurd (omega arith)
receive_rounds-encode_frames (suc rounds) frame [] rest sizes sent h small =
    receive_rounds-frame rounds false frame rest sizes sent small.0
receive_rounds-encode_frames (suc rounds) frame (more ∷ frames) rest sizes sent h small =
    let now =
      receive_rounds-frame rounds true frame (encode_frames (more ∷ frames) ++ rest) sizes sent
        small.0 in
    let later =
      receive_rounds-encode_frames rounds more frames rest now.0 sent (omega arith) small.1 in
    (
      later.0,
      ap (λ t. receive_rounds (suc rounds) (conn_of t sizes sent))
            (append_assoc (encode_frame true frame) (encode_frames (more ∷ frames)) rest)
          ∙ now.1
          ∙ ap (λ m. m >>= (λ more. ok (frame ∷ more.0, more.1))) later.1,
    )

-- Whatever message is encoded, of frames no longer than the largest safe number, a transport whose
-- peer sends its bytes receives the message's frames, in whatever sizes the reads return the bytes, and
-- what follows the message is still to come.
pub receive-encode_zmtp_message :
    (frames : List (List ℕ)) (bytes rest sizes sent : List ℕ)
    → All (λ f. length f ≤ max_length) frames
    → encode_zmtp_message frames ≡ ok bytes
    → (left : List ℕ) × (receive (conn_of (bytes ++ rest) sizes sent)
        ≡ ok (frames, conn_of rest left sent))
unfolding receive encode_zmtp_message
receive-encode_zmtp_message [] bytes rest sizes sent small e = cc
receive-encode_zmtp_message (frame ∷ frames) bytes rest sizes sent small e =
    let same : encode_frames (frame ∷ frames) ≡ bytes =
      ap (λ (m : Outcome ZmtpError (List ℕ)). elim m [ ok b ↦ b | err t ↦ [] ]) e in
    rw (sym same) (
      receive_rounds-encode_frames (suc (length (encode_frames (frame ∷ frames) ++ rest))) frame
        frames rest sizes sent
        (omega (
          arith,
          length-encode_frames frame frames,
          length-append (encode_frames (frame ∷ frames)) rest,
        ))
        small)
