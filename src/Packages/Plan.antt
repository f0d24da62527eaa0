-- ===== src/Packages/Plan.antt =====
-- src/packages.ts: relayedInstallPlan, which walks a package's dependencies, and sizeRefusal.
pub mod Walk
pub mod Needed
use yurt_playground.Base.{
  ℕ, zero, suc, ◌*◌, ◌||◌, List, [], ◌∷◌, ◌++◌, Option, none, some, Text, if◌then◌else◌, text_eq,
  includes,
}
use yurt_playground.Packages.{PackageVersion, Depend}
use yurt_playground.Packages.Releases.{latest_release}

pub record PackageFile : Type 0 where
  pub name : Text
  pub versions : List PackageVersion

pub record Release : Type 0 where
  pub name : Text
  pub version : PackageVersion

abbrev pub Metadata : Type 0
Metadata = List (Text × PackageFile)

abbrev pub file_of : Text → Metadata → Option PackageFile
file_of name [] = none
file_of name ((key, file) ∷ metadata) =
    if text_eq key name then some file else file_of name metadata

-- `{ ...best, name: file.name }`.
named_release : Text → Option PackageVersion → Option Release
named_release name none = none
named_release name (some v) = some (record { name = name; version = v })

latest_of_file : Option PackageFile → Option Release
unfolding named_release
latest_of_file none = none
latest_of_file (some file) = named_release file.name (latest_release file.versions)

-- `file === undefined ? undefined : latestRelease(file)`, of the file under a name.
unfoldable pub latest_of : Metadata → Text → Option Release
unfolding latest_of_file
latest_of metadata wanted = latest_of_file (file_of wanted metadata)

abbrev pub names_of : List Depend → List Text
names_of [] = []
names_of (d ∷ depends) = d.name ∷ names_of depends

-- `seen` in the order of its additions, and `plan`.
pub record Walked : Type 0 where
  pub seen : List Text
  pub plan : List Release

-- A loop of visits.
unfoldable pub visit_each : (Text → Walked → Walked) → List Text → Walked → Walked
visit_each visit [] s = s
visit_each visit (name ∷ names) s = visit_each visit names (visit name s)

-- What a visit does past its guard.
unfoldable pub push_release : (List Text → Walked → Walked) → Option Release → Walked → Walked
push_release visits none s = s
push_release visits (some release) s =
    visits (names_of release.version.depends) (record s { plan = s.plan ++ release ∷ [] })

module _ (metadata : Metadata) (installed : List Text) where
  unfoldable pub visit : ℕ → Text → Walked → Walked
  unfolding visit_each push_release
  visit zero wanted s = s
  visit (suc depth) wanted s =
      if includes wanted s.seen || includes wanted installed
      then s
      else push_release (visit_each (visit depth)) (latest_of metadata wanted)
          (record s { seen = s.seen ++ wanted ∷ [] })

-- A package that is visited past its guard has a file, or is a leaf: the depth is at most the files'
-- count, and one.
unfoldable pub count_files : Metadata → ℕ
count_files [] = 0
count_files (entry ∷ metadata) = suc (count_files metadata)

unfoldable pub walk : Metadata → Text → List Text → Walked
unfolding visit count_files
walk metadata name installed =
    visit metadata installed (suc (count_files metadata)) name (record { seen = []; plan = [] })

unfoldable pub relayed_install_plan : Metadata → Text → List Text → List Release
unfolding walk
relayed_install_plan metadata name installed = (walk metadata name installed).plan

abbrev pub tablet_max_bytes : ℕ
tablet_max_bytes = 16 * 1024 * 1024

abbrev pub install_max_bytes : ℕ
install_max_bytes = 256 * 1024 * 1024
