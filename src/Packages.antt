-- ===== src/Packages.antt =====
-- src/packages.ts: the packages of a repository, their names and paths, and which releases are chosen.
pub mod Version
pub mod Split
pub mod Paths
pub mod Rows
pub mod Releases
pub mod Plan
pub mod Output
mod Tests
use yurt_playground.Base.{
  ℕ, zero, suc, ◌+◌, ◌-◌, ◌*◌, Bool, true, false, not, ◌&&◌, ◌||◌, List, [], ◌∷◌, ◌++◌, Option,
  none, some, Text, ltb, leb, ◌==◌, if◌then◌else◌, length, drop, starts_with, text_eq, is_digit,
  chars, Outcome, ok, err,
}

-- `s.split(c)`, of one character.
push_part : ℕ → List Text → List Text
push_part c [] = (c ∷ []) ∷ []
push_part c (part ∷ parts) = (c ∷ part) ∷ parts

unfoldable pub split : ℕ → Text → List Text
unfolding push_part
split c [] = [] ∷ []
split c (d ∷ s) = let rest = split c s in if d == c then [] ∷ rest else push_part d rest

abbrev pub any : (Text → Bool) → List Text → Bool
any f [] = false
any f (s ∷ texts) = f s || any f texts

abbrev some_char : (ℕ → Bool) → Text → Bool
some_char f [] = false
some_char f (c ∷ s) = f c || some_char f s

every_char : (ℕ → Bool) → Text → Bool
every_char f [] = true
every_char f (c ∷ s) = f c && every_char f s

is_lower : ℕ → Bool
is_lower c = leb 97 c && leb c 122

is_name_first : ℕ → Bool
unfolding is_lower
is_name_first c = is_lower c || is_digit c

is_name_char : ℕ → Bool
unfolding is_name_first is_lower
is_name_char c = is_name_first c || c == 46 || c == 95 || c == 45

unfoldable pub is_package_name : Text → Bool
unfolding is_name_first is_name_char every_char
is_package_name [] = false
is_package_name (c ∷ s) = is_name_first c && every_char is_name_char s

-- `\`, `%`, `?`, `#`, `:`, the controls and the space.
abbrev is_refused : ℕ → Bool
is_refused c = c == 92 || c == 37 || c == 63 || c == 35 || c == 58 || leb c 32 || c == 127

abbrev pub is_dots : Text → Bool
is_dots part = text_eq part [] || text_eq part (46 ∷ []) || text_eq part (46 ∷ 46 ∷ [])

pub data PathError : Type 0 where
  unsupported_path : Text → PathError

unfoldable pub check_relative : Text → Outcome PathError Text
check_relative path =
    if text_eq path []
      || starts_with path (47 ∷ [])
      || some_char is_refused path
      || any is_dots (split 47 path)
    then err (unsupported_path path)
    else ok path

pub record Depend : Type 0 where
  pub name : Text
  pub req : Text

pub record PackageVersion : Type 0 where
  pub version : Text
  pub build : Text
  pub url : Text
  pub sha256 : Text
  pub size : ℕ
  pub depends : List Depend
  pub yanked : Bool

-- A PackageFile's name is not read.
pub record Catalog : Type 0 where
  pub metadata : List (Text × List PackageVersion)

unfoldable pub lookup : Text → List (Text × List PackageVersion) → Option (List PackageVersion)
lookup name [] = none
lookup name ((key, versions) ∷ metadata) =
    let rest = lookup name metadata in if text_eq key name then some versions else rest

abbrev pub staging_dir : Text
staging_dir = chars "/var/cache/yurt-pkg/browser/staging"

-- A staged file's bytes play no part.
unfoldable pub is_staged : Text → Bool
is_staged path =
    starts_with path (staging_dir ++ 47 ∷ [])
    && not (any is_dots (split 47 (drop (length staging_dir + 1) path)))

unfoldable pub only_staged : List Text → Bool
only_staged [] = true
only_staged (path ∷ paths) = is_staged path && only_staged paths
