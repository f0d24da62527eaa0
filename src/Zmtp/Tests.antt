-- ===== src/Zmtp/Tests.antt =====
-- A message of three frames and the handshake, at concrete inputs.
use yurt_playground.Base.{ℕ, ◌≡◌, refl, true, false, List, [], ◌∷◌, ◌++◌, chars, ok, err, arith}
use yurt_playground.Zmtp.{
  encode_zmtp_message, encode_frames, encode_frame, decode_zmtp_frames, read_length,
  header_truncated, body_truncated, trailing_frames,
}
use yurt_playground.Zmtp.Trip.{decode_zmtp_frames-encode_zmtp_message}
use yurt_playground.Zmtp.Connection.{
  receive, open_zmtp_transport, encode_zmtp_greeting, encode_zmtp_ready,
}
use yurt_playground.Zmtp.Connection.Receive.{conn_of, receive-encode_zmtp_message}
use yurt_playground.Zmtp.Connection.Open.{open_zmtp_transport-ready}

abbrev three_frames : List (List ℕ)
three_frames = (1 ∷ 2 ∷ []) ∷ [] ∷ (3 ∷ []) ∷ []

abbrev three_bytes : List ℕ
three_bytes = 1 ∷ 2 ∷ 1 ∷ 2 ∷ 1 ∷ 0 ∷ 0 ∷ 1 ∷ 3 ∷ []

encoded_test : encode_zmtp_message three_frames ≡ ok three_bytes
unfolding encode_zmtp_message encode_frames encode_frame
encoded_test = refl

truncated_test :
    (decode_zmtp_frames (0 ∷ []) ≡ err header_truncated)
    × (decode_zmtp_frames (0 ∷ 2 ∷ 7 ∷ []) ≡ err body_truncated)
    × (decode_zmtp_frames (0 ∷ 1 ∷ 7 ∷ 0 ∷ []) ≡ err trailing_frames)
unfolding decode_zmtp_frames read_length
truncated_test = (refl, refl, refl)

decode_zmtp_frames-encode_zmtp_message_example : decode_zmtp_frames three_bytes ≡ ok three_frames
decode_zmtp_frames-encode_zmtp_message_example =
    decode_zmtp_frames-encode_zmtp_message three_frames three_bytes
      (omega arith, (omega arith, (omega arith, tt))) encoded_test

receive-encode_zmtp_message_example :
    (left : List ℕ) × (receive (conn_of (three_bytes ++ 9 ∷ []) (0 ∷ 0 ∷ 2 ∷ []) [])
      ≡ ok (three_frames, conn_of (9 ∷ []) left []))
receive-encode_zmtp_message_example =
    receive-encode_zmtp_message three_frames three_bytes (9 ∷ []) (0 ∷ 0 ∷ 2 ∷ []) []
      (omega arith, (omega arith, (omega arith, tt))) encoded_test

open_zmtp_transport-ready_example :
    (left : List ℕ) × (open_zmtp_transport
        (λ s. s)
        (chars "DEALER")
        (conn_of
          (encode_zmtp_greeting true ++ (encode_zmtp_ready (chars "ROUTER") ++ three_bytes))
          (5 ∷ 0 ∷ [])
          [])
      ≡ ok (
          conn_of three_bytes left
            (([] ++ encode_zmtp_greeting false) ++ encode_zmtp_ready (chars "DEALER"))))
open_zmtp_transport-ready_example =
    open_zmtp_transport-ready (λ s. s) true (chars "DEALER") (chars "ROUTER") three_bytes
      (5 ∷ 0 ∷ []) [] refl (omega arith)
