-- ===== src/Relay/Origin.antt =====
-- What the relay asks for.
use yurt_playground.Base.{
  ℕ, ◌≡◌, refl, inl, inr, Bool, true, List, Text, chars, ok, Outcome-cases, starts_with, Bool-cases,
  drop, ltb, arith,
}
use yurt_playground.Packages.{check_relative}
use yurt_playground.Relay.{
  Library, RelayRequest, package_repo_url, max_path_bytes, url_of_path, upstream_url,
}
use yurt_playground.Relay.Reply.{Fetch, fetched_reply, relay_reply}

module _ (library : Library) where
  -- A URL of the repository, of a path that the page may fetch.
  abbrev pub IsOfRepository : Text → Text → Type 0
  IsOfRepository target url =
      (starts_with url package_repo_url ≡ true)
      × (check_relative (drop 1 target) ≡ ok (drop 1 target))

  check_relative_same : (path given : Text) → check_relative path ≡ ok given → given ≡ path
  unfolding check_relative
  check_relative_same path given h = ground arith

  url_of_path-below :
      (path url : Text)
      → url_of_path library path ≡ ok url
      → (starts_with url package_repo_url ≡ true) × (check_relative path ≡ ok path)
  unfolding url_of_path
  url_of_path-below path url h = elim (Outcome-cases (check_relative path)) [
    | inl (thrown, e) ↦ let h' = rw (e, url_of_path) at h in cc
    | inr (given, e) ↦
        let h' = rw (e, url_of_path) at h in
        elim (Bool-cases (starts_with (library.resolved path package_repo_url) package_repo_url)) [
          | inl below ↦
              let h'' = rw below at h' in
              let same : library.resolved path package_repo_url ≡ url = cc in
              let given_path = check_relative_same path given e in
              (rw (← same) below, rw given_path at e)
          | inr outside ↦ let h'' = rw outside at h' in cc
        ]
  ]

  upstream_url-IsOfRepository :
      (target url : Text) → upstream_url library target ≡ ok url → IsOfRepository target url
  unfolding upstream_url
  upstream_url-IsOfRepository target url h = elim (Bool-cases (starts_with target (chars "/"))) [
    | inr e ↦ let h' = rw (e, upstream_url) at h in cc
    | inl e ↦
        let h' = rw (e, upstream_url) at h in
        elim (Bool-cases (ltb max_path_bytes (library.utf8_length (drop 1 target)))) [
          | inl long ↦ let h'' = rw long at h' in cc
          | inr short ↦ url_of_path-below (drop 1 target) url (rw short at h')
        ]
  ]

  module _ (encode : Text → List ℕ) (sha256_hex : List ℕ → Text) where
    -- The relay fetches nothing outside the package repository: two fetches that agree on the URLs below
    -- it, for requests of a path that the page may fetch, give the same reply to any request.
    pub relay_reply-IsOfRepository :
        (fetch other : Fetch) (tablet : Bool) (request : RelayRequest)
        → ((url : Text) → IsOfRepository request.target url → fetch url ≡ other url)
        → relay_reply library encode sha256_hex fetch tablet request
          ≡ relay_reply library encode sha256_hex other tablet request
    unfolding relay_reply fetched_reply
    relay_reply-IsOfRepository fetch other tablet request agree =
        elim (Outcome-cases (upstream_url library request.target)) [
          | inl (refused, e) ↦ rw e refl
          | inr (url, e) ↦
              let same = agree url (upstream_url-IsOfRepository request.target url e) in
              rw (e, same) refl
        ]
