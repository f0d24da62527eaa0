-- ===== src/Zmtp/Connection/Open.antt =====
-- The handshake of two ends.
use yurt_playground.Base.{
  ℕ, suc, ◌+◌, ◌%◌, ◌<◌, ◌≡◌, refl, ap, Bool, true, false, List, [], ◌∷◌, ◌++◌, Text, chars, ok,
  length, length-append, arith,
}
use yurt_playground.Zmtp.{big_endian}
use yurt_playground.Zmtp.Connection.{
  encode_zmtp_greeting, encode_zmtp_ready, property_bytes, open_zmtp_transport, read_zmtp_command,
  after_header, first,
}
use yurt_playground.Zmtp.Connection.Receive.{conn_of, read_exactly-append}

length-encode_zmtp_greeting : (as_server : Bool) → 64 ≡ length (encode_zmtp_greeting as_server)
unfolding encode_zmtp_greeting
length-encode_zmtp_greeting true = refl
length-encode_zmtp_greeting false = refl

ready_tail : Text → List ℕ
ready_tail socket_type =
    property_bytes (chars "Socket-Type") socket_type ++ property_bytes (chars "Identity") []

length-ready_tail : (socket_type : Text) → length (ready_tail socket_type) ≡ 29 + length socket_type
unfolding ready_tail property_bytes big_endian
length-ready_tail socket_type =
    omega (arith, length-append socket_type (property_bytes (chars "Identity") []))

encode_zmtp_ready-eq :
    (socket_type : Text)
    → length socket_type < 221
    → encode_zmtp_ready socket_type
      ≡ 4 ∷ (35 + length socket_type) ∷ 5 ∷ (chars "READY" ++ ready_tail socket_type)
unfolding encode_zmtp_ready ready_tail
encode_zmtp_ready-eq socket_type h =
    ap (λ n. 4 ∷ n ∷ 5 ∷ (chars "READY" ++ ready_tail socket_type))
      (small (suc (suc (suc (suc (suc (suc (length (ready_tail socket_type))))))))
        (omega (arith, length-ready_tail socket_type)))
  where
    small : (n : ℕ) → n ≡ 35 + length socket_type → n % 256 ≡ 35 + length socket_type
    small n e = omega arith

module _ (decode : List ℕ → Text) where
  read_zmtp_command-ready :
      (socket_type : Text) (rest sizes sent : List ℕ)
      → decode (chars "READY") ≡ chars "READY"
      → length socket_type < 221
      → (left : List ℕ) × (read_zmtp_command decode
            (chars "READY")
            (conn_of (encode_zmtp_ready socket_type ++ rest) sizes sent)
          ≡ ok (conn_of rest left sent))
  unfolding read_zmtp_command after_header first
  read_zmtp_command-ready socket_type rest sizes sent known h =
      let body : List ℕ = 5 ∷ (chars "READY" ++ ready_tail socket_type) in
      let header =
        read_exactly-append 2 (4 ∷ (35 + length socket_type) ∷ []) (body ++ rest) sizes sent refl in
      let more =
        read_exactly-append (35 + length socket_type) body rest header.0 sent
          (omega (arith, length-ready_tail socket_type)) in
      (more.0, rw (encode_zmtp_ready-eq socket_type h, header.1, more.1, known) refl)

  -- When the peer, server or not, sends its greeting and a READY command as this end does, of a socket
  -- type shorter than 221, the transport opens, in whatever sizes the bytes come: it has sent its own
  -- greeting and READY, in this order, and what follows the peer's is still to come. The text decoder
  -- leaves READY as it is.
  pub open_zmtp_transport-ready :
      (as_server : Bool) (mine socket_type : Text) (rest sizes sent : List ℕ)
      → decode (chars "READY") ≡ chars "READY"
      → length socket_type < 221
      → (left : List ℕ) × (open_zmtp_transport decode mine (
            conn_of
              (encode_zmtp_greeting as_server ++ (encode_zmtp_ready socket_type ++ rest))
              sizes
              sent)
          ≡ ok (conn_of rest left ((sent ++ encode_zmtp_greeting false) ++ encode_zmtp_ready mine)))
  unfolding open_zmtp_transport
  open_zmtp_transport-ready as_server mine socket_type rest sizes sent known h =
      let greeting =
        read_exactly-append 64 (encode_zmtp_greeting as_server)
          (encode_zmtp_ready socket_type ++ rest) sizes (sent ++ encode_zmtp_greeting false)
          (length-encode_zmtp_greeting as_server) in
      let command =
        read_zmtp_command-ready socket_type rest greeting.0
          ((sent ++ encode_zmtp_greeting false) ++ encode_zmtp_ready mine) known h in
      (command.0, rw greeting.1 command.1)
