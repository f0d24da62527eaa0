-- ===== src/Packages/Output.antt =====
-- src/packages.ts: what is read of pkg's output (planReleases, plannedInstalls, failure), and the sizes
-- that an install is refused for (formatBytes, sizeRefusal).
pub mod Pinned
use yurt_playground.Base.{
  ℕ, zero, suc, ◌+◌, ◌-◌, ◌*◌, ◌/◌, ◌%◌, Bool, true, false, not, ◌&&◌, ◌||◌, List, [], ◌∷◌, ◌++◌,
  Option, none, some, Text, chars, Outcome, ok, err, ◌>>=◌, ltb, leb, ◌==◌, if◌then◌else◌, length,
  drop, starts_with, text_eq, includes, decimal,
}
use yurt_playground.Packages.{PackageVersion, PathError, check_relative, split, some_char, any}
use yurt_playground.Packages.Version.{is_white}
use yurt_playground.Packages.Releases.{PinnedRelease, keep}
use yurt_playground.Packages.Plan.{
  PackageFile, Release, Metadata, file_of, tablet_max_bytes, install_max_bytes,
}

-- `toFixed(0)` of `n / d`, and `toFixed(1)`: the nearest, and up from the middle.
abbrev to_fixed : ℕ → ℕ → Text
to_fixed n d = decimal ((2 * n + d) / (2 * d))

abbrev to_fixed_one : ℕ → ℕ → Text
to_fixed_one n d =
    let tenths = (20 * n + d) / (2 * d) in decimal (tenths / 10) ++ 46 ∷ decimal (tenths % 10)

unfoldable pub format_bytes : ℕ → Text
unfolding decimal
format_bytes bytes =
    if ltb bytes 1024
    then decimal bytes ++ chars " B"
    else if ltb bytes (1024 * 1024)
    then to_fixed bytes 1024 ++ chars " KiB"
    else to_fixed_one bytes (1024 * 1024) ++ chars " MiB"

unfoldable pub size_refusal : ℕ → Bool → Option Text
unfolding format_bytes
size_refusal bytes tablet =
    if tablet && ltb tablet_max_bytes bytes
    then some (
        format_bytes bytes
        ++ (chars " is more than a tablet or phone tab has memory for (the limit here is "
            ++ (format_bytes tablet_max_bytes
                ++ chars "); use a desktop browser or the desktop app")))
    else if ltb install_max_bytes bytes
    then some (
        format_bytes bytes
        ++ (chars " is more than one tab installs (the limit is "
            ++ (format_bytes install_max_bytes ++ chars "); use the desktop app")))
    else none

-- The lines of `^` and `$` in a multi-line expression.
is_line_end : ℕ → Bool
is_line_end c = c == 10 || c == 13 || c == 8232 || c == 8233

push_char : ℕ → List Text → List Text
push_char c [] = (c ∷ []) ∷ []
push_char c (line ∷ lines) = (c ∷ line) ∷ lines

unfoldable pub lines_of : Text → List Text
unfolding is_line_end push_char
lines_of [] = [] ∷ []
lines_of (c ∷ s) = let rest = lines_of s in if is_line_end c then [] ∷ rest else push_char c rest

-- The longest `\S*`, and what follows it.
unfoldable pub word : Text → Text × Text
unfolding is_white
word [] = ([], [])
word (c ∷ s) = let rest = word s in if is_white c then ([], c ∷ s) else (c ∷ rest.0, rest.1)

-- `\S+ `, and what follows.
unfoldable pub word_space : Text → Option (Text × Text)
unfolding word
word_space s =
    let found = word s in
    if text_eq found.0 [] || not (starts_with found.1 (chars " "))
    then none
    else some (found.0, drop 1 found.1)

abbrev install_prefix : Text
install_prefix = chars "install "

named_install : Option (Text × Text) → Option Text
named_install none = none
named_install (some (name, rest)) = some name

-- `/^install (\S+) /`.
unfoldable pub installs_name : Text → Option Text
unfolding named_install word_space
installs_name line =
    if starts_with line install_prefix
    then named_install (word_space (drop (length install_prefix) line))
    else none

plan_words : Option (Text × Text) → Option (Text × Text)
unfolding word
plan_words none = none
plan_words (some (name, rest)) =
    let found = word rest in
    if text_eq found.0 [] || not (text_eq found.1 []) then none else some (name, found.0)

-- `/^install (\S+) (\S+)$/`.
unfoldable pub plan_line : Text → Option (Text × Text)
unfolding plan_words word_space
plan_line line =
    if starts_with line install_prefix
    then plan_words (word_space (drop (length install_prefix) line))
    else none

abbrev add_name : Text → List Text → List Text
add_name name names = if includes name names then names else names ++ name ∷ []

names_in : List Text → List Text → List Text
unfolding installs_name
names_in names [] = names
names_in names (line ∷ lines) =
    names_in (elim (installs_name line) [ none ↦ names | some name ↦ add_name name names ]) lines

unfoldable pub planned_installs : Text → Text → List Text
unfolding names_in lines_of
planned_installs output name = add_name name (names_in [] (lines_of output))

-- `version-build`.
abbrev pub version_build : Text → Text → Text
version_build version build = version ++ 45 ∷ build

unfoldable pub find_version : Text → List PackageVersion → Option PackageVersion
find_version vb [] = none
find_version vb (v ∷ versions) =
    let rest = find_version vb versions in
    if text_eq (version_build v.version v.build) vb then some v else rest

unfoldable pub listed : Metadata → Text → Text → Option PackageVersion
unfolding find_version
listed metadata name vb = elim (file_of name metadata) [
  | none ↦ none
  | some file ↦ find_version vb file.versions
]

pub data PlanError : Type 0 where
  not_listed not_pinned not_expected : Text → Text → PlanError
  unreadable : PathError → PlanError

-- `pinned.get(n)`: of two under one name, the map has the last.
unfoldable pub pin_named : Text → List PinnedRelease → Option PinnedRelease
pin_named name [] = none
pin_named name (pin ∷ pins) = elim (pin_named name pins) [
  | some later ↦ some later
  | none ↦ if text_eq pin.name name then some pin else none
]

-- `checkRelease({ ...release, name })`.
unfoldable pub check_release : Text → PackageVersion → Outcome PlanError Release
check_release name v = elim (check_relative v.url) [
  | ok _ ↦ ok (record { name = name; version = v })
  | err e ↦ err (unreadable e)
]

module _ (to_lower_case : Text → Text) (others_allowed : Bool) where
  unfoldable pub is_pinned : PinnedRelease → Text → PackageVersion → Bool
  is_pinned pin vb v =
      text_eq (version_build pin.version pin.build) vb
      && text_eq (to_lower_case v.sha256) pin.sha256
      && v.size == pin.size

  unfoldable pub against_pin :
      Option PinnedRelease → Text → Text → PackageVersion → Outcome PlanError Release
  unfolding is_pinned check_release
  against_pin none name vb v =
      if others_allowed then check_release name v else err (not_pinned name vb)
  against_pin (some pin) name vb v =
      if is_pinned pin vb v then check_release name v else err (not_expected name vb)

  unfoldable pub allowed :
      Option (List PinnedRelease) → Text → Text → PackageVersion → Outcome PlanError Release
  unfolding against_pin check_release pin_named
  allowed none name vb v = check_release name v
  allowed (some pins) name vb v = against_pin (pin_named name pins) name vb v

  unfoldable pub planned_release :
      Metadata → Option (List PinnedRelease) → Text × Text → Outcome PlanError Release
  unfolding listed allowed
  planned_release metadata pinned (name, vb) = elim (listed metadata name vb) [
    | none ↦ err (not_listed name vb)
    | some v ↦ allowed pinned name vb v
  ]

  -- A line that is no plan's line is passed over.
  releases_in :
      Metadata → Option (List PinnedRelease) → List Text → Outcome PlanError (List Release)
  unfolding planned_release plan_line
  releases_in metadata pinned [] = ok []
  releases_in metadata pinned (line ∷ lines) =
      let rest = releases_in metadata pinned lines in
      elim (plan_line line) [
        | none ↦ rest
        | some chosen ↦
            planned_release metadata pinned chosen
            >>= (λ release. rest >>= (λ more. ok (release ∷ more)))
      ]

  unfoldable pub plan_releases :
      Text → Metadata → Option (List PinnedRelease) → Outcome PlanError (List Release)
  unfolding releases_in lines_of
  plan_releases stdout metadata pinned = releases_in metadata pinned (lines_of stdout)

-- `/fail|error/i` of a line.
has_text : Text → Text → Bool
has_text part [] = text_eq part []
has_text part (c ∷ s) = starts_with (c ∷ s) part || has_text part s

to_lower_ascii : Text → Text
to_lower_ascii [] = []
to_lower_ascii (c ∷ s) = (if leb 65 c && leb c 90 then c + 32 else c) ∷ to_lower_ascii s

all_white : Text → Bool
unfolding is_white
all_white [] = true
all_white (c ∷ s) = is_white c && all_white s

-- A line that may be the cause. The expression for a plan's line has no `m`: it is of the whole line.
may_be_cause : Text → Bool
unfolding all_white plan_line
may_be_cause line =
    not (all_white line)
    && not (elim (plan_line line) [ none ↦ false | some _ ↦ true ])
    && not (starts_with line (chars "warning:"))

fails_or_errs : Text → Bool
unfolding has_text to_lower_ascii
fails_or_errs line =
    has_text (chars "fail") (to_lower_ascii line) || has_text (chars "error") (to_lower_ascii line)

first_line : (Text → Bool) → List Text → Option Text
first_line f [] = none
first_line f (line ∷ lines) = let rest = first_line f lines in if f line then some line else rest

cause_of : Text → List Text → Text
unfolding first_line fails_or_errs
cause_of exit lines = elim (first_line fails_or_errs lines) [
  | some line ↦ line
  | none ↦ elim (first_line (λ _. true) lines) [ some line ↦ line | none ↦ chars "exit " ++ exit ]
]

-- `exit` is the code as a text.
unfoldable pub failure : Text → Text → Text → Text → Text
unfolding cause_of may_be_cause
failure name exit stdout stderr =
    chars "pkg install "
    ++ (name
        ++ (chars " failed: "
            ++ cause_of exit (keep may_be_cause (split 10 (stderr ++ 10 ∷ stdout)))))
