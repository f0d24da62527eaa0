-- ===== src/Packages/Tests.antt =====
-- Versions and a set of two packages, at concrete inputs.
use Prim.Native.Nat.{lt, eq, gt}
use yurt_playground.Base.{
  ◌≡◌, refl, Bool, true, false, List, [], ◌∷◌, Text, chars, ok, includes, All, ◌++◌, ◌↔◌, some,
}
use yurt_playground.Packages.Plan.{Metadata, Release, relayed_install_plan, latest_of}
use yurt_playground.Packages.Plan.Needed.{
  Needed, Distinct, releases_of, relayed_install_plan-Needed,
}
use yurt_playground.Packages.Plan.Walk.{In}
use yurt_playground.Packages.Output.{plan_releases, planned_installs, format_bytes, failure}
use yurt_playground.Packages.Output.Pinned.{IsPinned, plan_releases-IsPinned}
use yurt_playground.Packages.{
  PackageVersion, Catalog, split, is_package_name, check_relative, only_staged, is_staged,
  staging_dir,
}
use yurt_playground.Packages.Paths.{resolve, check_relative-resolve, IsBelow, only_staged-IsBelow}
use yurt_playground.Packages.Version.{
  compare_versions, compare_releases, compare_core, compare_pre, compare_parts, compare_part,
  compare_text, core, pre, number, is_number,
}
use yurt_playground.Packages.Version.Laws.{flip, Joins, compare_releases-Joins}
use yurt_playground.Packages.Releases.{
  keep, best_of, latest_release, InstalledRelease, PinnedRelease, resolve_set,
}
use yurt_playground.Packages.Releases.Latest.{IsLatest, latest_release-IsLatest}
use yurt_playground.Packages.Releases.Set.{IsResolved, resolve_set-IsResolved}

name_test :
    (is_package_name (chars "ca-certificates") ≡ true) × (is_package_name (chars "../etc") ≡ false)
unfolding is_package_name
name_test = (refl, refl)

path_test : check_relative (chars "a/b.tar") ≡ ok (chars "a/b.tar")
unfolding check_relative split
path_test = refl

versions_test :
    (compare_versions (chars "1.10.0") (chars "1.9") ≡ gt)
    × (compare_versions (chars "1.0") (chars "1.0.0") ≡ eq)
    × (compare_versions (chars "1.0.0-rc.2") (chars "1.0.0-rc.10") ≡ lt)
    × (compare_versions (chars "1.0.0-rc.1") (chars "1.0.0") ≡ lt)
unfolding compare_versions compare_core compare_pre compare_parts compare_part compare_text core pre
    split number is_number
versions_test = (refl, refl, refl, refl)

abbrev release : Text → Text → Bool → PackageVersion
release version build yanked = record {
  version = version;
  build = build;
  url = chars "p/a.tar";
  sha256 = chars "00";
  size = 7;
  depends = [];
  yanked = yanked;
}

abbrev versions : List PackageVersion
versions =
    release (chars "1.2.0") (chars "yurt_1") false
    ∷ release (chars "1.10.0") (chars "yurt_2") false
    ∷ release (chars "2.0.0") (chars "yurt_3") true
    ∷ []

compare_releases-Joins_example :
    let a = release (chars "1.2.0") (chars "yurt_1") false in
    let b = release (chars "1.10.0") (chars "yurt_2") false in
    let c = release (chars "1.10.0") (chars "yurt_10") false in
    (compare_releases b a ≡ flip (compare_releases a b))
    × Joins (compare_releases a b) (compare_releases b c) (compare_releases a c)
compare_releases-Joins_example =
    compare_releases-Joins (release (chars "1.2.0") (chars "yurt_1") false)
      (release (chars "1.10.0") (chars "yurt_2") false)
      (release (chars "1.10.0") (chars "yurt_10") false)

latest_release-IsLatest_example : IsLatest versions (latest_release versions)
latest_release-IsLatest_example = latest_release-IsLatest versions

abbrev two_packages : Catalog
two_packages = record {
  metadata =
      (chars "python", versions)
      ∷ (chars "seal", release (chars "1.0") (chars "yurt_2") false ∷ [])
      ∷ [];
}

abbrev set_names : List Text
set_names = chars "python" ∷ chars "seal" ∷ []

resolve_set-IsResolved_example :
    IsResolved
      (λ s. s)
      two_packages
      (keep (λ (r : InstalledRelease). includes r.name set_names) [])
      set_names
      (resolve_set (λ s. s) two_packages set_names [])
resolve_set-IsResolved_example = resolve_set-IsResolved (λ s. s) two_packages set_names []

check_relative-resolve_example :
    (chars "a/b.tar" ≡ chars "a/b.tar")
    × (resolve (chars "var" ∷ []) (split 47 (chars "a/b.tar"))
        ≡ (chars "var" ∷ []) ++ split 47 (chars "a/b.tar"))
check_relative-resolve_example =
    check_relative-resolve (chars "a/b.tar") (chars "a/b.tar") (chars "var" ∷ []) path_test

abbrev staged_paths : List Text
staged_paths = (staging_dir ++ chars "/index.json") ∷ (staging_dir ++ chars "/p/a.tar") ∷ []

staged_test : only_staged staged_paths ≡ true
unfolding only_staged is_staged split
staged_test = refl

only_staged-IsBelow_example : All IsBelow staged_paths
only_staged-IsBelow_example = only_staged-IsBelow staged_paths staged_test

abbrev depending : Text → Text → PackageVersion
depending version on = record (release version (chars "yurt_1") false) {
  depends = record { name = on; req = chars "*" } ∷ [];
}

-- Two packages that depend on each other.
abbrev a_cycle : Metadata
a_cycle =
    (
      chars "git",
      record { name = chars "git"; versions = depending (chars "2.40.0") (chars "zlib") ∷ [] },
    )
    ∷ (
      chars "zlib",
      record { name = chars "zlib"; versions = depending (chars "1.3.0") (chars "git") ∷ [] },
    )
    ∷ []

cycle_test :
    relayed_install_plan a_cycle (chars "git") []
    ≡ record { name = chars "git"; version = depending (chars "2.40.0") (chars "zlib") }
      ∷ record { name = chars "zlib"; version = depending (chars "1.3.0") (chars "git") }
      ∷ []
unfolding relayed_install_plan latest_of latest_release best_of
cycle_test = refl

relayed_install_plan-Needed_example :
    (order : List Text) × (relayed_install_plan a_cycle (chars "git") []
      ≡ releases_of a_cycle order)
    × Distinct order
    × ((x : Text) → In x order ↔ Needed a_cycle [] (chars "git") x)
relayed_install_plan-Needed_example = relayed_install_plan-Needed a_cycle [] (chars "git")

abbrev git_pins : List PinnedRelease
git_pins =
    record {
      name = chars "git";
      version = chars "2.40.0";
      build = chars "yurt_1";
      sha256 = chars "00";
      size = 7;
      url = chars "p/a.tar";
    }
    ∷ []

abbrev planned_git : List Release
planned_git =
    record { name = chars "git"; version = depending (chars "2.40.0") (chars "zlib") } ∷ []

planned_test :
    plan_releases
      (λ s. s)
      false
      (chars "plan:\ninstall git 2.40.0-yurt_1\n")
      a_cycle
      (some git_pins)
    ≡ ok planned_git
unfolding plan_releases check_relative split
planned_test = refl

plan_releases-IsPinned_example : All (IsPinned (λ s. s) git_pins) planned_git
plan_releases-IsPinned_example =
    plan_releases-IsPinned (λ s. s) git_pins (chars "plan:\ninstall git 2.40.0-yurt_1\n") a_cycle
      planned_git planned_test

output_test :
    (planned_installs (chars "install zlib 1.3\n") (chars "git") ≡ chars "zlib" ∷ chars "git" ∷ [])
    × (format_bytes 1536 ≡ chars "2 KiB")
    × (format_bytes 1572864 ≡ chars "1.5 MiB")
    × (failure (chars "git") (chars "1") (chars "install git 2\n") (chars "warning: a\nError: b\n")
        ≡ chars "pkg install git failed: Error: b")
unfolding planned_installs format_bytes failure split
output_test = (refl, refl, refl, refl)
