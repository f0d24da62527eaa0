-- ===== src/Relay.antt =====
-- src/pkg_relay.ts: the relay between the guest's pkg and the package repository. Here, the request's head
-- (parseRequestHead) and the URL that it asks for (upstreamUrl).
pub mod Reply
pub mod Sends
pub mod Connections
pub mod Exact
pub mod Progress
pub mod Origin
mod Tests
use yurt_playground.Base.{
  ℕ, zero, suc, ◌+◌, ◌*◌, Bool, true, false, not, ◌&&◌, ◌||◌, List, [], ◌∷◌, ◌++◌, Option, none,
  some, Text, chars, Outcome, ok, err, leb, ltb, ◌==◌, if◌then◌else◌, length, drop, starts_with,
  text_eq,
}
use yurt_playground.Packages.{check_relative}
use yurt_playground.Packages.Output.{word}

abbrev pub Headers : Type 0
Headers = List (Text × Text)

pub record RelayRequest : Type 0 where
  pub method : Text
  pub target : Text
  pub headers : Headers

abbrev pub max_head_bytes : ℕ
max_head_bytes = 8 * 1024

abbrev pub max_path_bytes : ℕ
max_path_bytes = 512

abbrev pub max_connections : ℕ
max_connections = 16

abbrev pub package_repo_url : Text
package_repo_url = chars "https://raw.githubusercontent.com/YurtOS/yurt-packages/main/"

-- A header's value, `none` where it has none.
abbrev pub header_named : Text → Headers → Option Text
header_named name [] = none
header_named name ((key, value) ∷ headers) =
    if text_eq key name then some value else header_named name headers

-- `headers.set`: an old value is replaced in its place.
set_header : Text → Text → Headers → Headers
set_header name value [] = (name, value) ∷ []
set_header name value ((key, old) ∷ headers) =
    if text_eq key name then (key, value) ∷ headers else (key, old) ∷ set_header name value headers

-- `split("\r\n")`.
push_unit : ℕ → List Text → List Text
push_unit c [] = (c ∷ []) ∷ []
push_unit c (line ∷ lines) = (c ∷ line) ∷ lines

split_lines : Text → List Text
unfolding push_unit
split_lines [] = [] ∷ []
split_lines (c ∷ []) = (c ∷ []) ∷ []
split_lines (c ∷ d ∷ s) =
    let rest = split_lines s in
    let more = split_lines (d ∷ s) in if c == 13 && d == 10 then [] ∷ rest else push_unit c more

-- `[A-Z]*`, and what follows.
upper_front : Text → Text × Text
upper_front [] = ([], [])
upper_front (c ∷ s) =
    let rest = upper_front s in if leb 65 c && leb c 90 then (c ∷ rest.0, rest.1) else ([], c ∷ s)

-- `([A-Z]+) (\S+) HTTP\/1\.[01]`, of the whole line.
request_line : Text → Option (Text × Text)
unfolding upper_front word
request_line line =
    let method = upper_front line in
    let target = word (drop 1 method.1) in
    if not (text_eq method.0 [])
      && starts_with method.1 (chars " ")
      && not (text_eq target.0 [])
      && (text_eq target.1 (chars " HTTP/1.0") || text_eq target.1 (chars " HTTP/1.1"))
    then some (method.0, target.0)
    else none

-- What stands before the first colon and after it.
cut_at_colon : Text → Option (Text × Text)
cut_at_colon [] = none
cut_at_colon (c ∷ s) =
    let rest = cut_at_colon s in
    if c == 58
    then some ([], s)
    else elim rest [ none ↦ none | some (front, back) ↦ some (c ∷ front, back) ]

-- The functions of the language's library that the relay's head and its URL are read by: `trim` and
-- `toLowerCase` of a text, its length in UTF-8, JSON.stringify, and `new URL(path, base).href`.
pub record Library : Type 0 where
  pub trim : Text → Text
  pub to_lower_case : Text → Text
  pub utf8_length : Text → ℕ
  pub quoted : Text → Text
  pub resolved : Text → Text → Text

module _ (library : Library) where
  add_header : Option (Text × Text) → Headers → Option Headers
  unfolding set_header
  add_header none headers = none
  add_header (some ([], value)) headers = none
  add_header (some (c ∷ name, value)) headers =
      some
        (set_header (library.to_lower_case (library.trim (c ∷ name))) (library.trim value) headers)

  headers_of : List Text → Headers → Option Headers
  unfolding add_header cut_at_colon
  headers_of [] headers = some headers
  headers_of ([] ∷ lines) headers = headers_of lines headers
  headers_of ((c ∷ line) ∷ lines) headers = elim (add_header (cut_at_colon (c ∷ line)) headers) [
    | none ↦ none
    | some more ↦ headers_of lines more
  ]

  request_of : List Text → Option RelayRequest
  unfolding request_line headers_of
  request_of [] = none
  request_of (line ∷ lines) = elim (request_line line) [
    | none ↦ none
    | some (method, target) ↦ elim (headers_of lines []) [
      | none ↦ none
      | some headers ↦ some (record { method = method; target = target; headers = headers })
    ]
  ]

  unfoldable pub parse_request_head : Text → Option RelayRequest
  unfolding request_of split_lines
  parse_request_head head = request_of (split_lines head)

  -- `path` is the target without its first character.
  unfoldable pub url_of_path : Text → Outcome Text Text
  unfolding check_relative
  url_of_path path = elim (check_relative path) [
    | err _ ↦ err (chars "unsupported path " ++ library.quoted path)
    | ok _ ↦
        let url = library.resolved path package_repo_url in
        if starts_with url package_repo_url
        then ok url
        else err (chars "outside " ++ package_repo_url)
  ]

  -- The URL, or why there is none.
  unfoldable pub upstream_url : Text → Outcome Text Text
  unfolding url_of_path
  upstream_url target =
      if not (starts_with target (chars "/"))
      then err (chars "not an origin-form path")
      else if ltb max_path_bytes (library.utf8_length (drop 1 target))
      then err (chars "path too long")
      else url_of_path (drop 1 target)
