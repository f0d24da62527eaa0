-- ===== src/Packages/Version.antt =====
-- src/packages.ts, compareVersions, buildNumber and compareReleases. Of a comparison's result the
-- source uses the sign only: it is an `Ordering`. A number has any size.
pub mod Laws
use Prim.Native.Nat.{compare, Ordering, lt, eq, gt}
use yurt_playground.Base.{
  ℕ, zero, suc, ◌+◌, ◌-◌, ◌*◌, Bool, true, false, not, ◌&&◌, ◌||◌, List, [], ◌∷◌, Option, none,
  some, Text, ltb, leb, ◌==◌, if◌then◌else◌, is_digit, starts_with, drop, chars, map,
}
use yurt_playground.Packages.{split, PackageVersion}

-- `a || b` on two comparisons.
abbrev pub or_else : Ordering → Ordering → Ordering
or_else lt b = lt
or_else eq b = b
or_else gt b = gt

-- The spaces that `parseInt` skips.
unfoldable pub is_white : ℕ → Bool
is_white c =
    (leb 9 c && leb c 13)
    || c == 32
    || c == 160
    || c == 5760
    || (leb 8192 c && leb c 8202)
    || c == 8232
    || c == 8233
    || c == 8239
    || c == 8287
    || c == 12288
    || c == 65279

digits_front : ℕ → Text → ℕ
digits_front acc [] = acc
digits_front acc (c ∷ s) =
    let rest = digits_front (acc * 10 + (c - 48)) s in if is_digit c then rest else acc

-- `Number.parseInt(part, 10) || 0`: a part has no sign, which ends the core.
parse_part : Text → ℕ
unfolding is_white digits_front
parse_part [] = 0
parse_part (c ∷ s) = let rest = parse_part s in if is_white c then rest else digits_front 0 (c ∷ s)

-- What is before the first `c`.
before : ℕ → Text → Text
before c [] = []
before c (d ∷ s) = let rest = before c s in if d == c then [] else d ∷ rest

-- What is after it, if there is one.
after : ℕ → Text → Option Text
after c [] = none
after c (d ∷ s) = let rest = after c s in if d == c then some s else rest

unfoldable pub core : Text → List ℕ
unfolding before parse_part
core version = map parse_part (split 46 (before 45 (before 43 version)))

pre_parts : Option Text → List Text
pre_parts none = []
pre_parts (some pre) = split 46 pre

unfoldable pub pre : Text → List Text
unfolding before after pre_parts
pre version = pre_parts (after 45 (before 43 version))

-- The numbers, one by one, where a missing one is 0.
unfoldable pub compare_core : List ℕ → List ℕ → Ordering
compare_core [] [] = eq
compare_core [] (y ∷ ys) = or_else (compare 0 y) (compare_core [] ys)
compare_core (x ∷ xs) [] = or_else (compare x 0) (compare_core xs [])
compare_core (x ∷ xs) (y ∷ ys) = or_else (compare x y) (compare_core xs ys)

-- `x < y` on texts, by code units.
unfoldable pub compare_text : Text → Text → Ordering
compare_text [] [] = eq
compare_text [] (y ∷ ys) = lt
compare_text (x ∷ xs) [] = gt
compare_text (x ∷ xs) (y ∷ ys) = or_else (compare x y) (compare_text xs ys)

all_digits : Text → Bool
all_digits [] = true
all_digits (c ∷ s) = is_digit c && all_digits s

-- `/^\d+$/`.
unfoldable pub is_number : Text → Bool
unfolding all_digits
is_number [] = false
is_number (c ∷ s) = is_digit c && all_digits s

unfoldable pub number : Text → ℕ
unfolding digits_front
number s = digits_front 0 s

by_kind : Bool → Bool → Text → Text → Ordering
by_kind true true x y = or_else (compare (number x) (number y)) (compare_text x y)
by_kind true false x y = lt
by_kind false true x y = gt
by_kind false false x y = compare_text x y

unfoldable pub compare_part : Text → Text → Ordering
unfolding by_kind
compare_part x y = by_kind (is_number x) (is_number y) x y

unfoldable pub compare_parts : List Text → List Text → Ordering
compare_parts [] [] = eq
compare_parts [] (y ∷ ys) = lt
compare_parts (x ∷ xs) [] = gt
compare_parts (x ∷ xs) (y ∷ ys) = or_else (compare_part x y) (compare_parts xs ys)

-- A version with no pre-release is above one with.
unfoldable pub compare_pre : List Text → List Text → Ordering
compare_pre [] [] = eq
compare_pre [] (y ∷ ys) = gt
compare_pre (x ∷ xs) [] = lt
compare_pre (x ∷ xs) (y ∷ ys) = compare_parts (x ∷ xs) (y ∷ ys)

unfoldable pub compare_versions : Text → Text → Ordering
compare_versions a b = or_else (compare_core (core a) (core b)) (compare_pre (pre a) (pre b))

abbrev yurt_prefix : Text
yurt_prefix = chars "yurt_"

-- `/^yurt_(\d+)$/`.
unfoldable pub is_yurt_build : Text → Bool
is_yurt_build build = starts_with build yurt_prefix && is_number (drop 5 build)

unfoldable pub build_number : Text → ℕ
build_number build = if is_yurt_build build then number (drop 5 build) else 0

unfoldable pub compare_releases : PackageVersion → PackageVersion → Ordering
compare_releases a b =
    or_else (compare_versions a.version b.version)
      (compare (build_number a.build) (build_number b.build))
