-- ===== src/Relay/Progress.antt =====
-- That a connection ends, when the kernel keeps taking bytes.
use yurt_playground.Base.{
  ℕ, zero, suc, ◌+◌, ◌-◌, ◌≤◌, ◌≡◌, refl, ap, ◌∙◌, Bool, true, false, List, [], ◌∷◌, ◌++◌, Option,
  none, some, Text, length, take, drop, min, arith, length-append, take-append-drop, length-drop,
}
use yurt_playground.Relay.{Library, parse_request_head}
use yurt_playground.Relay.Reply.{RelayReply, whole, streamed, Fetch, stream_exactly, reply_head}
use yurt_playground.Relay.Sends.{
  SendAnswer, again, moved, refused, stopped, Ending, finished, cut, Sending, send, send_each,
  send_body, after_send, by_ending, send_reply, answer, serve, chunk_cap,
}
use yurt_playground.Relay.Exact.{joined, body_of}

-- No send fails, and the relay is not stopped.
unfoldable pub calm : List SendAnswer → Bool
calm [] = true
calm (again ∷ answers) = calm answers
calm (moved zero ∷ answers) = false
calm (moved (suc n) ∷ answers) = calm answers
calm (refused ∷ answers) = false
calm (stopped ∷ answers) = false

-- How often the kernel takes bytes.
unfoldable pub moves : List SendAnswer → ℕ
moves [] = 0
moves (moved n ∷ answers) = suc (moves answers)
moves (again ∷ answers) = moves answers
moves (refused ∷ answers) = moves answers
moves (stopped ∷ answers) = moves answers

-- How the sends of a reply end: cut, only where its stream throws.
abbrev pub end_of_stream : Option Text → Ending
end_of_stream none = finished
end_of_stream (some thrown) = cut

abbrev pub end_of : RelayReply → Ending
end_of (whole status headers body) = finished
end_of (streamed headers n body) = end_of_stream (stream_exactly n body).thrown

record Done (s : Sending) (bytes : List ℕ) (ending : Ending) (answers : List SendAnswer)
    : Type 0 where
  taken : s.taken ≡ bytes
  ended : s.ending ≡ ending
  still_calm : calm s.answers ≡ true
  left : moves answers ≤ moves s.answers + length bytes

send-Done :
    (most : ℕ) (bytes : List ℕ) (answers : List SendAnswer)
    → 1 ≤ most
    → calm answers ≡ true
    → length bytes ≤ moves answers
    → Done (send most bytes answers) bytes finished answers
unfolding send calm moves
send-Done most [] answers some_at_once quiet enough = record {
  taken = refl;
  ended = refl;
  still_calm = quiet;
  left = omega arith;
}
send-Done most (b ∷ bytes) [] some_at_once quiet enough = absurd (omega arith)
send-Done most (b ∷ bytes) (again ∷ answers) some_at_once quiet enough =
    let done = send-Done most (b ∷ bytes) answers some_at_once quiet enough in
    record {
      taken = done.taken;
      ended = done.ended;
      still_calm = done.still_calm;
      left = done.left;
    }
send-Done most (b ∷ bytes) (moved zero ∷ answers) some_at_once quiet enough = cc
send-Done most (b ∷ bytes) (refused ∷ answers) some_at_once quiet enough = cc
send-Done most (b ∷ bytes) (stopped ∷ answers) some_at_once quiet enough = cc
send-Done most (b ∷ bytes) (moved (suc n) ∷ answers) some_at_once quiet enough =
    let k = min (suc n) most in
    let less : length (drop k (b ∷ bytes)) ≡ length (b ∷ bytes) - k = length-drop k (b ∷ bytes) in
    let done =
      send-Done most (drop k (b ∷ bytes)) answers some_at_once quiet (omega (arith, less)) in
    record {
      taken = ap (λ t. take k (b ∷ bytes) ++ t) done.taken ∙ take-append-drop k (b ∷ bytes);
      ended = done.ended;
      still_calm = done.still_calm;
      left = omega (arith, less, done.left);
    }

by_ending-Done :
    (next : List SendAnswer → Sending) (s : Sending) (bytes more : List ℕ) (ending : Ending)
    (answers : List SendAnswer)
    → Done s bytes finished answers
    → Done (next s.answers) more ending s.answers
    → Done (by_ending next s s.ending) (bytes ++ more) ending answers
unfolding by_ending
by_ending-Done next s bytes more ending answers first second = rw first.ended (record {
  taken = ap (λ t. t ++ (next s.answers).taken) first.taken ∙ ap (λ t. bytes ++ t) second.taken;
  ended = second.ended;
  still_calm = second.still_calm;
  left = omega (arith, first.left, second.left, length-append bytes more);
})

send_each-Done :
    (most : ℕ) (chunks : List (List ℕ)) (thrown : Option Text) (answers : List SendAnswer)
    → 1 ≤ most
    → calm answers ≡ true
    → length (joined chunks) ≤ moves answers
    → Done (send_each most chunks thrown answers) (joined chunks) (end_of_stream thrown) answers
unfolding send_each after_send
send_each-Done most [] none answers some_at_once quiet enough = record {
  taken = refl;
  ended = refl;
  still_calm = quiet;
  left = omega arith;
}
send_each-Done most [] (some failed) answers some_at_once quiet enough = record {
  taken = refl;
  ended = refl;
  still_calm = quiet;
  left = omega arith;
}
send_each-Done most (chunk ∷ chunks) thrown answers some_at_once quiet enough =
    let parts = length-append chunk (joined chunks) in
    let first = send-Done most chunk answers some_at_once quiet (omega (arith, parts)) in
    by_ending-Done (send_each most chunks thrown) (send most chunk answers) chunk (joined chunks)
      (end_of_stream thrown) answers first
      (send_each-Done most chunks thrown (send most chunk answers).answers some_at_once
        first.still_calm (omega (arith, first.left, parts)))

send_body-Done :
    (most : ℕ) (reply : RelayReply) (answers : List SendAnswer)
    → 1 ≤ most
    → calm answers ≡ true
    → length (body_of reply) ≤ moves answers
    → Done (send_body most reply answers) (body_of reply) (end_of reply) answers
unfolding send_body
send_body-Done most (whole status headers body) answers some_at_once quiet enough =
    send-Done most body answers some_at_once quiet enough
send_body-Done most (streamed headers n body) answers some_at_once quiet enough =
    send_each-Done most (stream_exactly n body).yielded (stream_exactly n body).thrown answers
      some_at_once quiet enough

module _ (library : Library) (encode : Text → List ℕ) (sha256_hex : List ℕ → Text) where
  -- A connection ends, however few bytes the kernel takes at a time and however often it would block: when
  -- it takes bytes as often as the reply's head, and what the stream of its body yields, have bytes, or more
  -- often, and no send fails and the relay is not stopped, all of the head and of what the stream yields is
  -- on the wire, and the connection is finished, or cut after that where the stream throws, as it does when
  -- it is shorter than announced.
  pub serve_to_end :
      (scratch : ℕ) (fetch : Fetch) (tablet : Bool) (head : Text) (answers : List SendAnswer)
      → calm answers ≡ true
      → let reply =
          answer library encode sha256_hex fetch tablet (parse_request_head library head) in
        length (reply_head encode reply ++ body_of reply) ≤ moves answers
        → let reply =
            answer library encode sha256_hex fetch tablet (parse_request_head library head) in
          let sent = serve library encode sha256_hex scratch fetch tablet (some head) answers in
          (sent.taken ≡ reply_head encode reply ++ body_of reply) × (sent.ending ≡ end_of reply)
  unfolding serve send_reply after_send
  serve_to_end scratch fetch tablet head answers quiet enough =
      let reply = answer library encode sha256_hex fetch tablet (parse_request_head library head) in
      let most = chunk_cap scratch in
      let bytes = reply_head encode reply in
      let parts = length-append bytes (body_of reply) in
      let first = send-Done most bytes answers (omega arith) quiet (omega (arith, parts)) in
      let done =
        by_ending-Done (send_body most reply) (send most bytes answers) bytes (body_of reply)
          (end_of reply) answers first
          (send_body-Done most reply (send most bytes answers).answers (omega arith)
            first.still_calm (omega (arith, first.left, parts))) in
      (done.taken, done.ended)
