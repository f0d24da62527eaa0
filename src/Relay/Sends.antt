-- ===== src/Relay/Sends.antt =====
-- src/pkg_relay.ts: a connection (readHead, send, serve), over what the kernel answers its calls with.
use yurt_playground.Base.{
  ℕ, zero, suc, ◌+◌, ◌-◌, ◌*◌, Bool, List, [], ◌∷◌, ◌++◌, Option, none, some, Text, chars, ltb,
  if◌then◌else◌, length, take, drop, min, max, starts_with,
}
use yurt_playground.Relay.{RelayRequest, Library, max_head_bytes, parse_request_head}
use yurt_playground.Relay.Reply.{
  RelayReply, whole, streamed, Fetch, stream_exactly, text_reply, relay_reply, reply_head,
}

-- What a send gives, or that the relay was stopped before it: EAGAIN, a count
-- of bytes, or another failure.
pub data SendAnswer : Type 0 where
  again : SendAnswer
  moved : ℕ → SendAnswer
  refused : SendAnswer
  stopped : SendAnswer

-- How many bytes a send gives the kernel at once, by the length of its scratch.
abbrev pub chunk_cap : ℕ → ℕ
chunk_cap scratch = max 4096 (min (64 * 1024) (scratch - 64))

-- How a connection stands: it waits for an answer of the kernel, has sent it all, or was cut.
pub data Ending : Type 0 where
  waits finished cut : Ending

-- What is sent: the bytes that the kernel took, how it ended, and the answers that are left.
pub record Sending : Type 0 where
  pub taken : List ℕ
  pub ending : Ending
  pub answers : List SendAnswer

abbrev pub took : List ℕ → Sending → Sending
took bytes s = record s { taken = bytes ++ s.taken }

-- The kernel takes `n` bytes of the chunk that it is given, of at most `cap`.
unfoldable pub send : ℕ → List ℕ → List SendAnswer → Sending
send cap [] answers = record { taken = []; ending = finished; answers = answers }
send cap (b ∷ bytes) [] = record { taken = []; ending = waits; answers = [] }
send cap (b ∷ bytes) (again ∷ answers) = send cap (b ∷ bytes) answers
send cap (b ∷ bytes) (refused ∷ answers) = record { taken = []; ending = cut; answers = answers }
send cap (b ∷ bytes) (stopped ∷ answers) = record { taken = []; ending = cut; answers = answers }
send cap (b ∷ bytes) (moved zero ∷ answers) = record { taken = []; ending = cut; answers = answers }
send cap (b ∷ bytes) (moved (suc n) ∷ answers) =
    took (take (min (suc n) cap) (b ∷ bytes))
      (send cap (drop (min (suc n) cap) (b ∷ bytes)) answers)

-- The sends of a stream's chunks, in turn, and the throw of the stream after them.
abbrev pub at_end : Option Text → List SendAnswer → Sending
at_end none answers = record { taken = []; ending = finished; answers = answers }
at_end (some thrown) answers = record { taken = []; ending = cut; answers = answers }

unfoldable pub by_ending : (List SendAnswer → Sending) → Sending → Ending → Sending
by_ending next s waits = s
by_ending next s cut = s
by_ending next s finished = took s.taken (next s.answers)

unfoldable pub after_send : (List SendAnswer → Sending) → Sending → Sending
unfolding by_ending
after_send next s = by_ending next s s.ending

unfoldable pub send_each : ℕ → List (List ℕ) → Option Text → List SendAnswer → Sending
unfolding send after_send
send_each cap [] thrown answers = at_end thrown answers
send_each cap (chunk ∷ chunks) thrown answers =
    after_send (send_each cap chunks thrown) (send cap chunk answers)

unfoldable pub send_body : ℕ → RelayReply → List SendAnswer → Sending
unfolding send send_each stream_exactly
send_body cap (whole status headers body) answers = send cap body answers
send_body cap (streamed headers n body) answers =
    let stream = stream_exactly n body in send_each cap stream.yielded stream.thrown answers

-- What a recv gives, its deadline and the stop of the relay included.
pub data RecvAnswer : Type 0 where
  blocked : RecvAnswer
  received : List ℕ → RecvAnswer
  ended : RecvAnswer

-- `head.slice(0, head.indexOf("\r\n\r\n"))`.
before_blank : Text → Option Text
before_blank [] = none
before_blank (c ∷ s) =
    let rest = before_blank s in
    if starts_with (c ∷ s) (13 ∷ 10 ∷ 13 ∷ 10 ∷ [])
    then some []
    else elim rest [ none ↦ none | some front ↦ some (c ∷ front) ]

-- The kernel gives no more bytes than it is asked for.
unfoldable pub read_head : Text → List RecvAnswer → Option Text
unfolding before_blank
read_head head [] = none
read_head head (ended ∷ answers) = none
read_head head (blocked ∷ answers) = read_head head answers
read_head head (received [] ∷ answers) = none
read_head head (received (b ∷ bytes) ∷ answers) =
    let more = head ++ take (max_head_bytes - length head + 1) (b ∷ bytes) in
    let rest = read_head more answers in
    elim (before_blank more) [
      | some front ↦ some front
      | none ↦ if ltb max_head_bytes (length more) then none else rest
    ]

module _ (library : Library) (encode : Text → List ℕ) (sha256_hex : List ℕ → Text) where
  unfoldable pub answer : Fetch → Bool → Option RelayRequest → RelayReply
  unfolding text_reply relay_reply
  answer fetch tablet none =
      text_reply library encode sha256_hex 400 (chars "not an HTTP/1.1 request")
  answer fetch tablet (some request) = relay_reply library encode sha256_hex fetch tablet request

  -- The reply's head and its body.
  unfoldable pub send_reply : ℕ → RelayReply → List SendAnswer → Sending
  unfolding send after_send send_body
  send_reply cap reply answers =
      after_send (send_body cap reply) (send cap (reply_head encode reply) answers)

  -- A connection whose head is read.
  unfoldable pub serve : ℕ → Fetch → Bool → Option Text → List SendAnswer → Sending
  unfolding answer send_reply parse_request_head
  serve scratch fetch tablet none answers = record { taken = []; ending = cut; answers = answers }
  serve scratch fetch tablet (some head) answers =
      send_reply (chunk_cap scratch) (answer fetch tablet (parse_request_head library head)) answers
