-- ===== src/Zmtp/Connection.antt =====
-- src/jupyter_transport.ts: a connection's handshake and RawZmtpTransport, over SandboxPortConn. The
-- connection is the bytes that are still to come from the peer, which then ends it, and the sizes in
-- which the coming reads return them. A transport that threw is closed or dropped: an error has no
-- connection with it.
pub mod Receive
pub mod Open
use yurt_playground.Base.{
  ℕ, zero, suc, ◌+◌, ◌-◌, ◌*◌, ◌%◌, Bool, true, false, not, List, [], ◌∷◌, ◌++◌, Text, chars,
  Outcome, ok, err, ◌>>=◌, unless_throw, ◌>>◌, ltb, ◌==◌, if◌then◌else◌, length, take, drop,
  text_eq, replicate, min,
}
use yurt_playground.Zmtp.{
  ZmtpError, closed, invalid_flags, not_expected, header_truncated, has_more, is_long,
  read_long_length, big_endian, encode_zmtp_message,
}

pub record Conn : Type 0 where
  pub incoming : List ℕ
  pub sizes : List ℕ
  pub sent : List ℕ

-- How many of at most `n` bytes the next read returns: one at least if there is one.
next_size : List ℕ → ℕ → ℕ
next_size [] n = n
next_size (size ∷ sizes) n = min n (suc size)

next_sizes : List ℕ → List ℕ
next_sizes [] = []
next_sizes (size ∷ sizes) = sizes

unfoldable pub read : ℕ → Conn → List ℕ × Conn
unfolding next_size next_sizes
read n conn = (
  take (next_size conn.sizes n) conn.incoming,
  record conn {
    incoming = drop (next_size conn.sizes n) conn.incoming;
    sizes = next_sizes conn.sizes;
  },
)

-- The bytes that are read go before those that were to be read after them.
got :
    (ℕ → Conn → Outcome ZmtpError (List ℕ × Conn))
    → ℕ
    → List ℕ × Conn
    → Outcome ZmtpError (List ℕ × Conn)
got next n ([], conn) = err closed
got next n (b ∷ chunk, conn) =
    next (n - length (b ∷ chunk)) conn >>= (λ rest. ok ((b ∷ chunk) ++ rest.0, rest.1))

-- Each read gives a byte at least, so there are no more rounds than bytes.
read_rounds : ℕ → ℕ → Conn → Outcome ZmtpError (List ℕ × Conn)
unfolding got
read_rounds rounds zero conn = ok ([], conn)
read_rounds zero (suc n) conn = err closed
read_rounds (suc rounds) (suc n) conn = got (read_rounds rounds) (suc n) (read (suc n) conn)

unfoldable pub read_exactly : ℕ → Conn → Outcome ZmtpError (List ℕ × Conn)
unfolding read_rounds
read_exactly n conn = read_rounds n n conn

abbrev pub write : List ℕ → Conn → Conn
write bytes conn = record conn { sent = conn.sent ++ bytes }

first : List ℕ → ℕ
first [] = 0
first (b ∷ bytes) = b

-- A frame's length, after its flags.
receive_length : Bool → Conn → Outcome ZmtpError (ℕ × Conn)
unfolding first
receive_length true conn =
    read_exactly 8 conn >>= (λ header. read_long_length header.0 >>= (λ n. ok (n, header.1)))
receive_length false conn = read_exactly 1 conn >>= (λ header. ok (first header.0, header.1))

receive_more :
    (Conn → Outcome ZmtpError (List (List ℕ) × Conn))
    → Bool
    → List ℕ × Conn
    → Outcome ZmtpError (List (List ℕ) × Conn)
receive_more next more (frame, conn) =
    if more then next conn >>= (λ rest. ok (frame ∷ rest.0, rest.1)) else ok (frame ∷ [], conn)

receive_rounds : ℕ → Conn → Outcome ZmtpError (List (List ℕ) × Conn)
unfolding receive_length receive_more first
receive_rounds zero conn = err closed
receive_rounds (suc rounds) conn = read_exactly 1 conn >>= (λ flags.
    receive_length (is_long (first flags.0)) flags.1 >>= (λ header.
      read_exactly header.0 header.1
      >>= receive_more (receive_rounds rounds) (has_more (first flags.0))))

-- Every round takes a byte at least, so there are no more than the bytes to come, and one, which fails.
unfoldable pub receive : Conn → Outcome ZmtpError (List (List ℕ) × Conn)
unfolding receive_rounds
receive conn = receive_rounds (suc (length conn.incoming)) conn

unfoldable pub send : List (List ℕ) → Conn → Outcome ZmtpError Conn
send frames conn = encode_zmtp_message frames >>= (λ bytes. ok (write bytes conn))

unfoldable pub send_command : List ℕ → List ℕ → Conn → Conn
send_command name payload conn =
    let body = length name % 256 ∷ (name ++ payload) in write (4 ∷ length body % 256 ∷ body) conn

unfoldable pub encode_zmtp_greeting : Bool → List ℕ
encode_zmtp_greeting as_server =
    255
    ∷ (replicate 8 0
        ++ (127
            ∷ 3
            ∷ 1
            ∷ (chars "NULL"
                ++ (replicate 16 0 ++ ((if as_server then 1 else 0) ∷ replicate 31 0)))))

property_bytes : List ℕ → List ℕ → List ℕ
property_bytes name value = length name % 256 ∷ (name ++ (big_endian 4 (length value) ++ value))

-- `socket_type` is ASCII.
unfoldable pub encode_zmtp_ready : Text → List ℕ
unfolding property_bytes
encode_zmtp_ready socket_type =
    let body =
      5
      ∷ (chars "READY"
          ++ (property_bytes (chars "Socket-Type") socket_type
              ++ property_bytes (chars "Identity") [])) in
    4 ∷ length body % 256 ∷ body

module _ (decode : List ℕ → Text) where
  after_header : Text → List ℕ × Conn → Outcome ZmtpError Conn
  unfolding first
  after_header expected ([], conn) = err invalid_flags
  after_header expected (flags ∷ header, conn) =
      unless_throw invalid_flags (flags == 4)
      >> (read_exactly (first header) conn >>= (λ body.
          if text_eq (decode (take (first body.0) (drop 1 body.0))) expected
          then ok body.1
          else err not_expected))

  unfoldable pub read_zmtp_command : Text → Conn → Outcome ZmtpError Conn
  unfolding after_header
  read_zmtp_command expected conn = read_exactly 2 conn >>= after_header expected

  unfoldable pub open_zmtp_transport : Text → Conn → Outcome ZmtpError Conn
  open_zmtp_transport socket_type conn =
      read_exactly 64 (write (encode_zmtp_greeting false) conn) >>= (λ greeting.
        read_zmtp_command (chars "READY") (write (encode_zmtp_ready socket_type) greeting.1))
