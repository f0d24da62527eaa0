-- ===== src/Relay/Exact.antt =====
-- What a connection puts on the wire.
use yurt_playground.Base.{
  ℕ, zero, suc, ◌+◌, ◌≡◌, refl, sym, ap, subst, ◌∙◌, inl, inr, Bool, List, [], ◌∷◌, ◌++◌, Option,
  none, some, Text, ◌==◌, ==_iff, ltb, length, take, drop, min, arith, Bool-cases, append_assoc,
  length-append, take-append-drop,
}
use yurt_playground.Relay.{Library, parse_request_head}
use yurt_playground.Relay.Reply.{
  RelayReply, whole, streamed, Fetch, stream_chunks, stream_exactly, reply_head, reply_length,
}
use yurt_playground.Relay.Sends.{
  SendAnswer, again, moved, refused, stopped, Ending, waits, finished, cut, Sending, took, send,
  send_each, send_body, after_send, by_ending, at_end, send_reply, answer, serve, chunk_cap,
}

abbrev pub joined : List (List ℕ) → List ℕ
joined [] = []
joined (chunk ∷ chunks) = chunk ++ joined chunks

-- The bytes of a reply's body.
abbrev pub body_of : RelayReply → List ℕ
body_of (whole status headers body) = body
body_of (streamed headers n body) = joined (stream_exactly n body).yielded

-- What is taken is a front of the bytes, and all of them when the sends are finished.
abbrev Fronts : Sending → List ℕ → Type 0
Fronts s bytes =
    ((rest : List ℕ) × (s.taken ++ rest ≡ bytes)) × (s.ending ≡ finished → s.taken ≡ bytes)

Fronts-took :
    (front : List ℕ) (s : Sending) (bytes : List ℕ)
    → Fronts s bytes
    → Fronts (took front s) (front ++ bytes)
Fronts-took front s bytes ((rest, e), all) = (
  (rest, append_assoc front s.taken rest ∙ ap (λ t. front ++ t) e),
  λ h. ap (λ t. front ++ t) (all h),
)

cut-Fronts :
    (answers : List SendAnswer) (bytes : List ℕ)
    → Fronts (record { taken = []; ending = cut; answers = answers }) bytes
cut-Fronts answers bytes = ((bytes, refl), λ h. cc)

send-Fronts :
    (most : ℕ) (bytes : List ℕ) (answers : List SendAnswer) → Fronts (send most bytes answers) bytes
unfolding send
send-Fronts most [] answers = (([], refl), λ h. refl)
send-Fronts most (b ∷ bytes) [] = ((b ∷ bytes, refl), λ h. cc)
send-Fronts most (b ∷ bytes) (again ∷ answers) = send-Fronts most (b ∷ bytes) answers
send-Fronts most (b ∷ bytes) (refused ∷ answers) = cut-Fronts answers (b ∷ bytes)
send-Fronts most (b ∷ bytes) (stopped ∷ answers) = cut-Fronts answers (b ∷ bytes)
send-Fronts most (b ∷ bytes) (moved zero ∷ answers) = cut-Fronts answers (b ∷ bytes)
send-Fronts most (b ∷ bytes) (moved (suc n) ∷ answers) =
    let k = min (suc n) most in
    subst (Fronts (send most (b ∷ bytes) (moved (suc n) ∷ answers)))
      (take-append-drop k (b ∷ bytes))
      (Fronts-took (take k (b ∷ bytes)) (send most (drop k (b ∷ bytes)) answers)
        (drop k (b ∷ bytes)) (send-Fronts most (drop k (b ∷ bytes)) answers))

by_ending-Fronts :
    (next : List SendAnswer → Sending) (s : Sending) (ending : Ending) (bytes more : List ℕ)
    → s.ending ≡ ending
    → Fronts s bytes
    → ((answers : List SendAnswer) → Fronts (next answers) more)
    → Fronts (by_ending next s ending) (bytes ++ more)
unfolding by_ending
by_ending-Fronts next s finished bytes more at (front, all) after_it =
    rw (all at) (Fronts-took bytes (next s.answers) more (after_it s.answers))
by_ending-Fronts next s waits bytes more at ((rest, e), all) after_it =
    ((rest ++ more, sym (append_assoc s.taken rest more) ∙ ap (λ t. t ++ more) e), λ h. cc)
by_ending-Fronts next s cut bytes more at ((rest, e), all) after_it =
    ((rest ++ more, sym (append_assoc s.taken rest more) ∙ ap (λ t. t ++ more) e), λ h. cc)

at_end-Fronts :
    (thrown : Option Text) (answers : List SendAnswer) → Fronts (at_end thrown answers) []
at_end-Fronts none answers = (([], refl), λ h. refl)
at_end-Fronts (some failed) answers = (([], refl), λ h. refl)

send_each-Fronts :
    (most : ℕ) (chunks : List (List ℕ)) (thrown : Option Text) (answers : List SendAnswer)
    → Fronts (send_each most chunks thrown answers) (joined chunks)
unfolding send_each after_send
send_each-Fronts most [] thrown answers = at_end-Fronts thrown answers
send_each-Fronts most (chunk ∷ chunks) thrown answers =
    by_ending-Fronts (send_each most chunks thrown) (send most chunk answers)
      (send most chunk answers).ending chunk (joined chunks) refl (send-Fronts most chunk answers)
      (send_each-Fronts most chunks thrown)

send_body-Fronts :
    (most : ℕ) (reply : RelayReply) (answers : List SendAnswer)
    → Fronts (send_body most reply answers) (body_of reply)
unfolding send_body
send_body-Fronts most (whole status headers body) answers = send-Fronts most body answers
send_body-Fronts most (streamed headers n body) answers =
    send_each-Fronts most (stream_exactly n body).yielded (stream_exactly n body).thrown answers

-- A stream that does not throw has yielded as many bytes as were announced.
stream_chunks-length :
    (announced : ℕ) (chunks : List (List ℕ)) (received : ℕ) (failure : Option Text)
    → (stream_chunks announced chunks received failure).thrown ≡ none
    → received + length (joined (stream_chunks announced chunks received failure).yielded)
      ≡ announced
unfolding stream_chunks
stream_chunks-length announced [] received (some failed) h = cc
stream_chunks-length announced [] received none h = elim (Bool-cases (received == announced)) [
  | inl e ↦ rw e (let same = (==_iff received announced).0 e in omega arith)
  | inr e ↦ let h' = rw e at h in cc
]
stream_chunks-length announced (chunk ∷ chunks) received failure h =
    elim (Bool-cases (ltb announced (received + length chunk))) [
      | inl e ↦ let h' = rw e at h in cc
      | inr e ↦ rw e (
          omega (
            arith,
            length-append chunk
                (joined (stream_chunks announced chunks (received + length chunk) failure).yielded),
            stream_chunks-length announced chunks (received + length chunk) failure (rw e at h),
          ))
    ]

by_ending-finished :
    (next : List SendAnswer → Sending) (s : Sending) (ending : Ending)
    → s.ending ≡ ending
    → (by_ending next s ending).ending ≡ finished
    → (next s.answers).ending ≡ finished
unfolding by_ending
by_ending-finished next s finished at h = h
by_ending-finished next s waits at h = cc
by_ending-finished next s cut at h = cc

send_each-thrown :
    (most : ℕ) (chunks : List (List ℕ)) (thrown : Option Text) (answers : List SendAnswer)
    → (send_each most chunks thrown answers).ending ≡ finished
    → thrown ≡ none
unfolding send_each after_send
send_each-thrown most [] none answers h = refl
send_each-thrown most [] (some failed) answers h = cc
send_each-thrown most (chunk ∷ chunks) thrown answers h =
    send_each-thrown most chunks thrown (send most chunk answers).answers (
      by_ending-finished (send_each most chunks thrown) (send most chunk answers)
        (send most chunk answers).ending refl h)

-- The bytes of a reply whose sends are finished are as many as its head announces.
send_body-length :
    (most : ℕ) (reply : RelayReply) (answers : List SendAnswer)
    → (send_body most reply answers).ending ≡ finished
    → length (body_of reply) ≡ reply_length reply
unfolding send_body stream_exactly
send_body-length most (whole status headers body) answers h = refl
send_body-length most (streamed headers n body) answers h = omega (
  arith,
  stream_chunks-length n body.chunks 0 body.failure (
      send_each-thrown most (stream_exactly n body).yielded (stream_exactly n body).thrown answers
        h),
)

module _ (library : Library) (encode : Text → List ℕ) (sha256_hex : List ℕ → Text) where
  -- What a connection puts on the wire, whatever the kernel takes at a time and however its stream ends:
  -- a front of the reply's head and body, and both whole, the body as long as the head announces, when the
  -- connection is finished and not cut. A body that is cut is so never as long as it was announced to be.
  pub serve-exact :
      (scratch : ℕ) (fetch : Fetch) (tablet : Bool) (head : Text) (answers : List SendAnswer)
      → let reply =
          answer library encode sha256_hex fetch tablet (parse_request_head library head) in
        let sent = serve library encode sha256_hex scratch fetch tablet (some head) answers in
        ((rest : List ℕ) × (sent.taken ++ rest ≡ reply_head encode reply ++ body_of reply))
        × (sent.ending ≡ finished
            → (sent.taken ≡ reply_head encode reply ++ body_of reply)
              × (length (body_of reply) ≡ reply_length reply))
  unfolding serve send_reply after_send
  serve-exact scratch fetch tablet head answers =
      let reply = answer library encode sha256_hex fetch tablet (parse_request_head library head) in
      let first = send (chunk_cap scratch) (reply_head encode reply) answers in
      let (front, all) =
        by_ending-Fronts (send_body (chunk_cap scratch) reply) first first.ending
          (reply_head encode reply) (body_of reply) refl
          (send-Fronts (chunk_cap scratch) (reply_head encode reply) answers)
          (send_body-Fronts (chunk_cap scratch) reply) in
      (
        front,
        λ h. (
          all h,
          send_body-length (chunk_cap scratch) reply first.answers
              (by_ending-finished (send_body (chunk_cap scratch) reply) first first.ending refl h),
        ),
      )
