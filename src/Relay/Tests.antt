-- ===== src/Relay/Tests.antt =====
-- A relay's requests, replies and connections at concrete inputs.
use yurt_playground.Base.{
  ℕ, ◌+◌, ◌≤◌, ◌≡◌, refl, true, false, List, [], ◌∷◌, ◌++◌, none, some, Text, chars, ok, err,
  length, arith, starts_with, if◌then◌else◌,
}
use yurt_playground.Packages.{check_relative, split}
use yurt_playground.Relay.{
  package_repo_url, Library, RelayRequest, parse_request_head, upstream_url,
}
use yurt_playground.Relay.Reply.{Fetch, relay_reply, reply_head, reply_length, stream_exactly}
use yurt_playground.Relay.Sends.{
  SendAnswer, again, moved, finished, serve, answer, read_head, received, blocked,
}
use yurt_playground.Relay.Exact.{serve-exact, body_of}
use yurt_playground.Relay.Progress.{serve_to_end, calm, moves, end_of}
use yurt_playground.Relay.Origin.{relay_reply-IsOfRepository}
use yurt_playground.Relay.Connections.{
  Event, accepts, serve_ends, stops, happens, happen_all, started,
}
use yurt_playground.Relay.Connections.Counted.{
  FreshAll, count, accepted, open_fds, IsSound, happen_all-IsCounted,
}

abbrev a_library : Library
a_library = record {
  trim = λ s. s;
  to_lower_case = λ s. s;
  utf8_length = λ s. length s;
  quoted = λ s. s;
  resolved = λ path base. base ++ path;
}

abbrev a_head : Text
a_head = chars "GET /p/a.yurtpkg HTTP/1.1\r\nhost:x"

-- An archive of three bytes, in two chunks.
abbrev a_fetch : Fetch
a_fetch url = ok (record {
  status = 200;
  content_length = some 3;
  body = record { chunks = (1 ∷ 2 ∷ []) ∷ (3 ∷ []) ∷ []; failure = none };
})

abbrev a_hash : List ℕ → Text
a_hash bytes = chars "00"

abbrev short_encode : Text → List ℕ
short_encode s = 7 ∷ []

head_test :
    parse_request_head a_library a_head
    ≡ some (record {
      method = chars "GET";
      target = chars "/p/a.yurtpkg";
      headers = (chars "host", chars "x") ∷ [];
    })
unfolding parse_request_head
head_test = refl

read_test :
    read_head []
      (received (chars "GET / HTTP/1.1\r\n") ∷ blocked ∷ received (chars "\r\nrest") ∷ [])
    ≡ some (chars "GET / HTTP/1.1")
unfolding read_head
read_test = refl

refused_test : upstream_url a_library (chars "/../x") ≡ err (chars "unsupported path ../x")
unfolding upstream_url check_relative split
refused_test = refl

abbrev some_answers : List SendAnswer
some_answers = moved 1 ∷ again ∷ moved 1 ∷ moved 1 ∷ moved 1 ∷ []

serve-exact_example :
    let reply =
      answer a_library short_encode a_hash a_fetch false (parse_request_head a_library a_head) in
    let sent = serve a_library short_encode a_hash 0 a_fetch false (some a_head) some_answers in
    ((rest : List ℕ) × (sent.taken ++ rest ≡ reply_head short_encode reply ++ body_of reply))
    × (sent.ending ≡ finished
        → (sent.taken ≡ reply_head short_encode reply ++ body_of reply)
          × (length (body_of reply) ≡ reply_length reply))
serve-exact_example = serve-exact a_library short_encode a_hash 0 a_fetch false a_head some_answers

serve_test :
    (serve a_library short_encode a_hash 0 a_fetch false (some a_head) some_answers).taken
    ≡ 7 ∷ 1 ∷ 2 ∷ 3 ∷ []
unfolding serve parse_request_head check_relative split reply_head
serve_test = refl

calm_test : calm some_answers ≡ true
unfolding calm
calm_test = refl

enough_test :
    let reply =
      answer a_library short_encode a_hash a_fetch false (parse_request_head a_library a_head) in
    length (reply_head short_encode reply ++ body_of reply) ≤ moves some_answers
unfolding moves answer parse_request_head check_relative split reply_head stream_exactly
enough_test = omega arith

serve_to_end_example :
    let reply =
      answer a_library short_encode a_hash a_fetch false (parse_request_head a_library a_head) in
    let sent = serve a_library short_encode a_hash 0 a_fetch false (some a_head) some_answers in
    (sent.taken ≡ reply_head short_encode reply ++ body_of reply) × (sent.ending ≡ end_of reply)
serve_to_end_example =
    serve_to_end a_library short_encode a_hash 0 a_fetch false a_head some_answers calm_test
      enough_test

abbrev a_request : RelayRequest
a_request = record { method = chars "GET"; target = chars "/p/a.yurtpkg"; headers = [] }

-- A fetch that fails outside the repository.
abbrev only_repository : Fetch
only_repository url =
    if starts_with url package_repo_url then a_fetch url else err (chars "another origin")

relay_reply-IsOfRepository_example :
    relay_reply a_library short_encode a_hash a_fetch false a_request
    ≡ relay_reply a_library short_encode a_hash only_repository false a_request
relay_reply-IsOfRepository_example =
    relay_reply-IsOfRepository a_library short_encode a_hash a_fetch only_repository false a_request
      (λ url below. rw below.0 refl)

abbrev some_events : List Event
some_events = accepts (5 ∷ 6 ∷ []) ∷ serve_ends 5 ∷ accepts (5 ∷ []) ∷ stops ∷ serve_ends 6 ∷ []

events_test : (happen_all some_events (started 3)).closed ≡ 5 ∷ 6 ∷ 5 ∷ 3 ∷ []
unfolding happen_all
events_test = refl

fresh_test : FreshAll some_events (started 3)
unfolding happens
fresh_test = (((refl, (refl, tt)), (tt, ((refl, tt), (tt, (tt, tt))))))

happen_all-IsCounted_example :
    let s = happen_all some_events (started 3) in
    ((fd : ℕ)
      → count fd (3 ∷ accepted some_events (started 3)) ≡ count fd (open_fds s) + count fd s.closed)
    × IsSound s
happen_all-IsCounted_example = happen_all-IsCounted 3 some_events fresh_test
