-- ===== src/Packages/Output/Pinned.antt =====
-- What a plan may hold when the releases of an install are pinned.
use yurt_playground.Base.{
  ◌≡◌, refl, sym, ◌∙◌, inl, inr, Bool, true, false, ◌&&◌, List, [], ◌∷◌, some, Text, ok, >>=-eq-ok,
  text_eq, text_eq_iff, All, arith, Bool-cases, Option-cases, ==_iff, Outcome-cases,
}
use yurt_playground.Packages.{PackageVersion, check_relative}
use yurt_playground.Packages.Releases.{PinnedRelease}
use yurt_playground.Packages.Plan.{Release, Metadata, file_of}
use yurt_playground.Packages.Output.{
  version_build, find_version, listed, pin_named, check_release, is_pinned, against_pin, allowed,
  planned_release, releases_in, plan_line, plan_releases, lines_of,
}

-- A release as it is pinned, which the page can fetch.
pub record IsPinned (to_lower_case : Text → Text) (pins : List PinnedRelease) (r : Release)
    : Type 0 where
  pub pin : PinnedRelease
  pub found : pin_named r.name pins ≡ some pin
  pub same_build :
      version_build r.version.version r.version.build ≡ version_build pin.version pin.build
  pub same_bytes : to_lower_case r.version.sha256 ≡ pin.sha256
  pub same_size : r.version.size ≡ pin.size
  pub fetched : check_relative r.version.url ≡ ok r.version.url

find_version-eq :
    (vb : Text) (versions : List PackageVersion) (v : PackageVersion)
    → find_version vb versions ≡ some v
    → version_build v.version v.build ≡ vb
unfolding find_version
find_version-eq vb [] v h = cc
find_version-eq vb (w ∷ versions) v h =
    elim (Bool-cases (text_eq (version_build w.version w.build) vb)) [
      | inl e ↦
          let h' = rw e at h in
          let same : w ≡ v = cc in
          rw (← same) ((text_eq_iff (version_build w.version w.build) vb).0 e)
      | inr e ↦ find_version-eq vb versions v (rw e at h)
    ]

listed-eq :
    (metadata : Metadata) (name vb : Text) (v : PackageVersion)
    → listed metadata name vb ≡ some v
    → version_build v.version v.build ≡ vb
unfolding listed
listed-eq metadata name vb v h = elim (Option-cases (file_of name metadata)) [
  | inl e ↦ let h' = rw (e, listed) at h in cc
  | inr (file, e) ↦ find_version-eq vb file.versions v (rw (e, listed) at h)
]

check_relative_same : (path result : Text) → check_relative path ≡ ok result → result ≡ path
unfolding check_relative
check_relative_same path result h = ground arith

and_parts : (a b c : Bool) → (a && b && c) ≡ true → (a ≡ true) × (b ≡ true) × (c ≡ true)
and_parts true true true h = (refl, refl, refl)
and_parts true true false h = cc
and_parts true false c h = cc
and_parts false b c h = cc

check_release-eq :
    (name : Text) (v : PackageVersion) (r : Release)
    → check_release name v ≡ ok r
    → (r ≡ record { name = name; version = v }) × (check_relative v.url ≡ ok v.url)
unfolding check_release
check_release-eq name v r h = elim (Outcome-cases (check_relative v.url)) [
  | inl (e, bad) ↦ let h' = rw (bad, check_release) at h in cc
  | inr (path, good) ↦
      let h' = rw (good, check_release) at h in
      (cc, good ∙ rw (check_relative_same v.url path good) refl)
]

module _ (to_lower_case : Text → Text) (pins : List PinnedRelease) where
  pinned_parts :
      (pin : PinnedRelease) (vb : Text) (v : PackageVersion)
      → is_pinned to_lower_case false pin vb v ≡ true
      → (version_build pin.version pin.build ≡ vb)
        × (to_lower_case v.sha256 ≡ pin.sha256)
        × (v.size ≡ pin.size)
  unfolding is_pinned
  pinned_parts pin vb v h =
      let (build, bytes, size) = and_parts _ _ _ h in
      (
        (text_eq_iff (version_build pin.version pin.build) vb).0 build,
        (text_eq_iff (to_lower_case v.sha256) pin.sha256).0 bytes,
        (==_iff v.size pin.size).0 size,
      )

  planned_release-IsPinned :
      (metadata : Metadata) (name vb : Text) (r : Release)
      → planned_release to_lower_case false metadata (some pins) (name, vb) ≡ ok r
      → IsPinned to_lower_case pins r
  unfolding planned_release allowed against_pin is_pinned
  planned_release-IsPinned metadata name vb r h = elim (Option-cases (listed metadata name vb)) [
    | inl e ↦ let h' = rw (e, planned_release) at h in cc
    | inr (v, e) ↦
        let h1 = rw (e, planned_release) at h in
        elim (Option-cases (pin_named name pins)) [
          | inl none_such ↦ let h2 = rw (none_such, allowed) at h1 in cc
          | inr (pin, found) ↦
              let h2 = rw (found, allowed) at h1 in
              elim (Bool-cases (is_pinned to_lower_case false pin vb v)) [
                | inl right ↦
                    let h3 = rw (right, against_pin) at h2 in
                    let (same, fetched) = check_release-eq name v r h3 in
                    let parts = pinned_parts pin vb v right in
                    let build : version_build v.version v.build
                        ≡ version_build pin.version pin.build =
                      listed-eq metadata name vb v e ∙ sym parts.0 in
                    rw same (record {
                      pin = pin;
                      found = found;
                      same_build = build;
                      same_bytes = parts.1;
                      same_size = parts.2;
                      fetched = fetched;
                    })
                | inr wrong ↦ let h3 = rw (wrong, against_pin) at h2 in cc
              ]
        ]
  ]

  releases_in-IsPinned :
      (metadata : Metadata) (lines : List Text) (releases : List Release)
      → releases_in to_lower_case false metadata (some pins) lines ≡ ok releases
      → All (IsPinned to_lower_case pins) releases
  unfolding releases_in
  releases_in-IsPinned metadata [] releases h = let e : [] ≡ releases = cc in rw (← e) tt
  releases_in-IsPinned metadata (line ∷ lines) releases h = elim (Option-cases (plan_line line)) [
    | inl other ↦ releases_in-IsPinned metadata lines releases (rw other at h)
    | inr (chosen, found) ↦
        let h' = rw found at h in
        let (release, first, rest) =
          >>=-eq-ok (planned_release to_lower_case false metadata (some pins) chosen) _ h' in
        let (more, later, whole) =
          >>=-eq-ok (releases_in to_lower_case false metadata (some pins) lines) _ rest in
        let e : release ∷ more ≡ releases = cc in
        rw (← e) (
          planned_release-IsPinned metadata chosen.0 chosen.1 release first,
          releases_in-IsPinned metadata lines more later,
        )
  ]

  -- When the releases of an install are pinned, and no others are allowed, each release that the plan of
  -- pkg's output gives is one pinned under its name: of its version and build, read together, of its
  -- sha256, whatever the case in the index, of its size, and at a path that the page may fetch.
  pub plan_releases-IsPinned :
      (stdout : Text) (metadata : Metadata) (releases : List Release)
      → plan_releases to_lower_case false stdout metadata (some pins) ≡ ok releases
      → All (IsPinned to_lower_case pins) releases
  unfolding plan_releases
  plan_releases-IsPinned stdout metadata releases h =
      releases_in-IsPinned metadata (lines_of stdout) releases h
