-- ===== src/Relay/Reply.antt =====
-- src/pkg_relay.ts: the reply to a request (relayReply, readAll, streamExactly, replyHead).
use yurt_playground.Base.{
  ℕ, zero, suc, ◌+◌, ◌*◌, Bool, true, false, not, ◌&&◌, ◌||◌, List, [], ◌∷◌, ◌++◌, Option, none,
  some, Text, chars, Outcome, ok, err, leb, ltb, ◌==◌, if◌then◌else◌, length, drop, text_eq,
  includes, decimal,
}
use yurt_playground.StoreLog.{max_safe_integer}
use yurt_playground.Packages.Plan.{tablet_max_bytes, install_max_bytes}
use yurt_playground.Relay.{RelayRequest, Headers, Library, header_named, upstream_url}

abbrev pub metadata_max_bytes : ℕ
metadata_max_bytes = 4 * 1024 * 1024

-- A response's body: the chunks that its reader gives, and why it failed, if it did (a stall too).
pub record Body : Type 0 where
  pub chunks : List (List ℕ)
  pub failure : Option Text

-- `content_length` is what `Number` makes of that header, where it is a natural number.
pub record Response : Type 0 where
  pub status : ℕ
  pub content_length : Option ℕ
  pub body : Body

-- What fetch gives for a URL: a response, or why it failed.
abbrev pub Fetch : Type 0
Fetch = Text → Outcome Text Response

pub data RelayReply : Type 0 where
  whole : ℕ → Headers → List ℕ → RelayReply
  streamed : Headers → ℕ → Body → RelayReply

-- `readAll`: the chunks from a count on.
unfoldable pub read_chunks : ℕ → List (List ℕ) → ℕ → Option Text → Outcome Text (List ℕ)
read_chunks limit [] received none = ok []
read_chunks limit [] received (some failure) = err failure
read_chunks limit (chunk ∷ chunks) received failure =
    let rest = read_chunks limit chunks (received + length chunk) failure in
    if ltb limit (received + length chunk)
    then err (chars "larger than " ++ (decimal limit ++ chars " bytes"))
    else elim rest [ ok bytes ↦ ok (chunk ++ bytes) | err failed ↦ err failed ]

unfoldable pub read_all : ℕ → Body → Outcome Text (List ℕ)
unfolding read_chunks
read_all limit body = read_chunks limit body.chunks 0 body.failure

-- What a stream yields, and why it throws after that, if it does.
pub record Streamed : Type 0 where
  pub yielded : List (List ℕ)
  pub thrown : Option Text

abbrev pub yield_first : List ℕ → Streamed → Streamed
yield_first chunk s = record s { yielded = chunk ∷ s.yielded }

-- `streamExactly`: the chunks from a count on.
unfoldable pub stream_chunks : ℕ → List (List ℕ) → ℕ → Option Text → Streamed
stream_chunks announced [] received (some failure) = record { yielded = []; thrown = some failure }
stream_chunks announced [] received none =
    if received == announced then record { yielded = []; thrown = none } else record {
      yielded = [];
      thrown = some (
          chars "body ended at "
          ++ (decimal received ++ (chars " of " ++ (decimal announced ++ chars " bytes"))));
    }
stream_chunks announced (chunk ∷ chunks) received failure =
    let rest = stream_chunks announced chunks (received + length chunk) failure in
    if ltb announced (received + length chunk)
    then record {
      yielded = [];
      thrown = some (chars "body runs past its " ++ (decimal announced ++ chars " bytes"));
    }
    else yield_first chunk rest

unfoldable pub stream_exactly : ℕ → Body → Streamed
unfolding stream_chunks
stream_exactly announced body = stream_chunks announced body.chunks 0 body.failure

ends_with : Text → Text → Bool
ends_with [] part = text_eq [] part
ends_with (c ∷ s) part = text_eq (c ∷ s) part || ends_with s part

abbrev pub cap_of : Bool → ℕ
cap_of true = tablet_max_bytes
cap_of false = install_max_bytes

abbrev cap_name : Bool → Text
cap_name true = chars "the tablet limit"
cap_name false = chars "the install limit"

-- The two files that have an ETag.
abbrev conditional : List Text
conditional = chars "index.json" ∷ chars "index.json.bundle" ∷ []

-- `Number.isSafeInteger(upstreamLength) && upstreamLength > 0`.
abbrev known_length : Option ℕ → Option ℕ
known_length none = none
known_length (some zero) = none
known_length (some (suc n)) = if leb (suc n) max_safe_integer then some (suc n) else none

module _ (library : Library) (encode : Text → List ℕ) (sha256_hex : List ℕ → Text) where
  unfoldable pub text_reply : ℕ → Text → RelayReply
  text_reply status message =
      whole status ((chars "Content-Type", chars "text/plain; charset=utf-8") ∷ [])
        (encode (message ++ 10 ∷ []))

  has_body : RelayRequest → Bool
  has_body request =
      elim (header_named (chars "content-length") request.headers) [
        | none ↦ false
        | some n ↦ not (text_eq n (chars "0"))
      ]
      || elim (header_named (chars "transfer-encoding") request.headers) [
        | none ↦ false
        | some _ ↦ true
      ]

  unfoldable pub archive_reply : Bool → Text → Response → RelayReply
  unfolding text_reply
  archive_reply tablet url response = elim (known_length response.content_length) [
    | none ↦ text_reply 502 (url ++ chars ": no Content-Length for an archive")
    | some n ↦
        if ltb (cap_of tablet) n
        then text_reply 502
            (url ++ (chars ": " ++ (decimal n ++ (chars " bytes is over " ++ cap_name tablet))))
        else streamed ((chars "Content-Type", chars "application/octet-stream") ∷ []) n
            response.body
  ]

  etag_of : List ℕ → Text
  etag_of body = chars "\"sha256-" ++ (sha256_hex body ++ chars "\"")

  same_etag : Option Text → Text → Bool
  same_etag none etag = false
  same_etag (some asked) etag = text_eq asked etag

  unfoldable pub whole_reply : RelayRequest → Text → List ℕ → RelayReply
  unfolding etag_of same_etag
  whole_reply request path body =
      let etag = etag_of body in
      if not (includes path conditional)
      then whole 200 [] body
      else if same_etag (header_named (chars "if-none-match") request.headers) etag
      then whole 304 ((chars "ETag", etag) ∷ []) []
      else whole 200 ((chars "ETag", etag) ∷ []) body

  unfoldable pub metadata_reply : RelayRequest → Text → Text → Outcome Text (List ℕ) → RelayReply
  unfolding text_reply whole_reply
  metadata_reply request path url (err failed) = text_reply 502 (url ++ (chars ": " ++ failed))
  metadata_reply request path url (ok body) = whole_reply request path body

  -- `response.ok`.
  is_ok : ℕ → Bool
  is_ok status = leb 200 status && leb status 299

  unfoldable pub reply_to : Bool → RelayRequest → Text → Outcome Text Response → RelayReply
  unfolding text_reply archive_reply metadata_reply is_ok ends_with read_all
  reply_to tablet request url (err failed) =
      text_reply 502 (chars "fetch " ++ (url ++ (chars " failed: " ++ failed)))
  reply_to tablet request url (ok response) =
      let path = drop 1 request.target in
      if not (is_ok response.status)
      then text_reply (if response.status == 404 then 404 else 502)
          (url ++ (chars ": HTTP " ++ decimal response.status))
      else if ends_with path (chars ".yurtpkg")
      then archive_reply tablet url response
      else metadata_reply request path url (read_all metadata_max_bytes response.body)

  unfoldable pub fetched_reply : Fetch → Bool → RelayRequest → Outcome Text Text → RelayReply
  unfolding text_reply reply_to
  fetched_reply fetch tablet request (err refused) = text_reply 403 refused
  fetched_reply fetch tablet request (ok url) = reply_to tablet request url (fetch url)

  unfoldable pub relay_reply : Fetch → Bool → RelayRequest → RelayReply
  unfolding text_reply has_body fetched_reply upstream_url
  relay_reply fetch tablet request =
      if not (text_eq request.method (chars "GET"))
      then text_reply 405 (chars "the relay only GETs")
      else if has_body request
      then text_reply 400 (chars "a GET has no body")
      else fetched_reply fetch tablet request (upstream_url library request.target)

abbrev reason : ℕ → Text
reason status =
    if status == 200
    then chars "OK"
    else if status == 304
    then chars "Not Modified"
    else if status == 400
    then chars "Bad Request"
    else if status == 403
    then chars "Forbidden"
    else if status == 404
    then chars "Not Found"
    else if status == 405
    then chars "Method Not Allowed"
    else if status == 502
    then chars "Bad Gateway"
    else chars "Error"

-- The length that the head announces.
abbrev pub reply_length : RelayReply → ℕ
reply_length (whole status headers body) = length body
reply_length (streamed headers n body) = n

abbrev pub reply_status : RelayReply → ℕ
reply_status (whole status headers body) = status
reply_status (streamed headers n body) = 200

abbrev reply_headers : RelayReply → Headers
reply_headers (whole status headers body) = headers
reply_headers (streamed headers n body) = headers

abbrev crlf : Text
crlf = 13 ∷ 10 ∷ []

header_lines : Headers → Text
header_lines [] = crlf
header_lines ((name, value) ∷ headers) =
    name ++ (chars ": " ++ (value ++ (crlf ++ header_lines headers)))

unfoldable pub reply_head : (Text → List ℕ) → RelayReply → List ℕ
unfolding header_lines
reply_head encode reply = encode (
    chars "HTTP/1.1 "
    ++ (decimal (reply_status reply)
        ++ (32
            ∷ (reason (reply_status reply)
                ++ (crlf
                    ++ (chars "Content-Length: "
                        ++ (decimal (reply_length reply)
                            ++ (crlf
                                ++ (chars "Connection: close"
                                    ++ (crlf ++ header_lines (reply_headers reply)))))))))))
