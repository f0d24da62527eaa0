-- ===== src/Packages/Releases.antt =====
-- src/packages.ts: latestRelease and resolveSet, over a catalog that was loaded.
pub mod Latest
pub mod Pick
pub mod Set
use Prim.Native.Nat.{Ordering, lt, eq, gt}
use yurt_playground.Base.{
  ℕ, zero, suc, ◌+◌, Bool, true, false, not, ◌&&◌, ◌||◌, List, [], ◌∷◌, ◌++◌, Option, none, some,
  Text, text_eq, includes, if◌then◌else◌, Outcome, ok, err, ◌>>=◌, ◌==◌, max,
}
use yurt_playground.Packages.{PackageVersion, Depend, Catalog, lookup, check_relative}
use yurt_playground.Packages.Version.{compare_releases, build_number, is_yurt_build}

-- `xs.filter(f)`.
abbrev pub keep {ℓ} : {A : Type ℓ} → (A → Bool) → List A → List A
keep f [] = []
keep f (x ∷ xs) = if f x then x ∷ keep f xs else keep f xs

-- `compareReleases(a, b) >= 0`.
at_least : Ordering → Bool
at_least lt = false
at_least eq = true
at_least gt = true

better : PackageVersion → PackageVersion → PackageVersion
unfolding at_least
better a b = if at_least (compare_releases a b) then a else b

-- `reduce` over one release and others.
unfoldable pub best_of : PackageVersion → List PackageVersion → PackageVersion
unfolding better
best_of a [] = a
best_of a (b ∷ releases) = best_of (better a b) releases

pub best : List PackageVersion → Option PackageVersion
best [] = none
best (a ∷ releases) = some (best_of a releases)

abbrev pub is_candidate : PackageVersion → Bool
is_candidate release = not release.yanked

unfoldable pub latest_release : List PackageVersion → Option PackageVersion
unfolding best
latest_release versions = best (keep is_candidate versions)

pub record InstalledRelease : Type 0 where
  pub name : Text
  pub version : Text
  pub build : Text

pub record PinnedRelease : Type 0 where
  pub name : Text
  pub version : Text
  pub build : Text
  pub sha256 : Text
  pub size : ℕ
  pub url : Text

pub data SetError : Type 0 where
  no_package : Text → SetError
  no_complete_set no_names no_release : SetError

is_readable : PackageVersion → Bool
is_readable release = elim (check_relative release.url) [ ok path ↦ true | err e ↦ false ]

-- The map of the installed members has the last release under a name.
unfoldable pub pin_of : Text → List InstalledRelease → Option InstalledRelease
pin_of name [] = none
pin_of name (r ∷ installed) = elim (pin_of name installed) [
  | some pin ↦ some pin
  | none ↦ if text_eq r.name name then some r else none
]

fits_pin : Option InstalledRelease → PackageVersion → Bool
fits_pin none v = true
fits_pin (some pin) v = text_eq v.version pin.version && text_eq v.build pin.build

-- A version that a set may have.
unfoldable pub is_eligible : Option InstalledRelease → PackageVersion → Bool
unfolding is_readable fits_pin
is_eligible pin v = not v.yanked && is_yurt_build v.build && is_readable v && fits_pin pin v

eligible_versions :
    List InstalledRelease
    → Text
    → Option (List PackageVersion)
    → Outcome SetError (Text × List PackageVersion)
unfolding pin_of
eligible_versions installed name none = err (no_package name)
eligible_versions installed name (some versions) =
    ok (name, keep (is_eligible (pin_of name installed)) versions)

-- The members' eligible versions, in the members' order, up to the first that has no package.
unfoldable pub members :
    Catalog
    → List InstalledRelease
    → List Text
    → Outcome SetError (List (Text × List PackageVersion))
unfolding eligible_versions
members catalog installed [] = ok []
members catalog installed (name ∷ names) =
    eligible_versions installed name (lookup name catalog.metadata)
    >>= (λ member. members catalog installed names >>= (λ rest. ok (member ∷ rest)))

abbrev pub has_build : ℕ → List PackageVersion → Bool
has_build n [] = false
has_build n (v ∷ versions) = build_number v.build == n || has_build n versions

abbrev pub all_have : ℕ → List (Text × List PackageVersion) → Bool
all_have n [] = true
all_have n (member ∷ rest) = has_build n member.1 && all_have n rest

abbrev pub builds : List PackageVersion → List ℕ
builds [] = []
builds (v ∷ versions) = build_number v.build ∷ builds versions

-- A build that is there twice changes neither the test nor the maximum.
unfoldable pub common : List (Text × List PackageVersion) → List ℕ
common [] = []
common (first ∷ rest) = keep (λ n. all_have n (first ∷ rest)) (builds first.1)

pub max_of : ℕ → List ℕ → ℕ
max_of n [] = n
max_of n (m ∷ ns) = max_of (max n m) ns

module _ (to_lower_case : Text → Text) where
  pinned : Text → Option PackageVersion → Outcome SetError PinnedRelease
  pinned name none = err no_release
  pinned name (some v) = ok (record {
    name = name;
    version = v.version;
    build = v.build;
    sha256 = to_lower_case v.sha256;
    size = v.size;
    url = v.url;
  })

  unfoldable pub choose :
      ℕ → List (Text × List PackageVersion) → Outcome SetError (List PinnedRelease)
  unfolding best pinned
  choose n [] = ok []
  choose n (member ∷ rest) =
      pinned member.0 (best (keep (λ v. build_number v.build == n) member.1))
      >>= (λ release. choose n rest >>= (λ others. ok (release ∷ others)))

  newest_set : List (Text × List PackageVersion) → List ℕ → Outcome SetError (List PinnedRelease)
  unfolding max_of
  newest_set versions [] = err no_complete_set
  newest_set versions (n ∷ ns) = choose (max_of n ns) versions

  of_members : List (Text × List PackageVersion) → Outcome SetError (List PinnedRelease)
  unfolding newest_set
  of_members [] = err no_names
  of_members (member ∷ rest) = newest_set (member ∷ rest) (common (member ∷ rest))

  unfoldable pub resolve_set :
      Catalog → List Text → List InstalledRelease → Outcome SetError (List PinnedRelease)
  unfolding of_members
  resolve_set catalog names installed =
      members catalog (keep (λ r. includes r.name names) installed) names >>= of_members
