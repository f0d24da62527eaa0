-- ===== src/Pins/Sound/Forms.antt =====
-- The forms that src/pins.ts's tests on texts and on a snapshot's contents are for, said without the tests.
use yurt_playground.Base.{
  ℕ, ◌≤◌, ◌≡◌, refl, ◌⊎◌, inl, inr, Bool, true, false, ◌&&◌, [], ◌∷◌, Option, none, some, Text,
  chars, All, Bool-cases, length, ◌==◌, leb, arith, is_digit,
}
use yurt_playground.Pins.Value.{Json, Items, no_items, item, string, array, get, is_object, is_text}
use yurt_playground.Pins.Snapshot.{
  is_hex, is_hex_digit, is_decimal, all_chars, is_package, every_package, packages_ok,
}

abbrev pub IsDigit : ℕ → Type 0
IsDigit c = (48 ≤ c) × (c ≤ 57)

abbrev pub IsHexDigit : ℕ → Type 0
IsHexDigit c = IsDigit c ⊎ ((97 ≤ c) × (c ≤ 102))

-- `n` characters, each of them a digit or one of a to f.
pub record IsHex (n : ℕ) (s : Text) : Type 0 where
  pub size : length s ≡ n
  pub digits : All IsHexDigit s

-- A decimal number: one digit, or digits of which the first is not 0.
pub data IsDecimal : Text → Type 0 where
  one_digit : (c : ℕ) → IsDigit c → IsDecimal (c ∷ [])
  from_one : (c : ℕ) (s : Text) → 49 ≤ c → c ≤ 57 → All IsDigit s → IsDecimal (c ∷ s)

pub data IsNonempty : Text → Type 0 where
  nonempty : (c : ℕ) (s : Text) → IsNonempty (c ∷ s)

abbrev pub HasText : Text → Json → Type 0
HasText key value = (s : Text) × (get key (some value) ≡ some (string s))

pub record IsPackage (value : Json) : Type 0 where
  pub name : HasText (chars "name") value
  pub version : HasText (chars "version") value
  pub build : HasText (chars "build") value

abbrev pub EachPackage : Items → Type 0
EachPackage no_items = Unit
EachPackage (item value rest) = IsPackage value × EachPackage rest

-- A remark, and packages, each with its name, version and build.
pub record IsContents (value : Json) : Type 0 where
  pub remark : HasText (chars "remark") value
  pub packages :
      (items : Items) × (get (chars "packages") (some value) ≡ some (array items))
      × EachPackage items

and_true : (a b : Bool) → (a && b) ≡ true → (a ≡ true) × (b ≡ true)
and_true true b h = (refl, h)
and_true false b h = cc

all_digits : (s : Text) → all_chars is_digit s ≡ true → All IsDigit s
all_digits [] h = tt
all_digits (c ∷ s) h =
    let (digit, rest) = and_true (is_digit c) (all_chars is_digit s) h in
    ((ground arith, ground arith), all_digits s rest)

is_hex_digit_lem : (c : ℕ) → is_hex_digit c ≡ true → IsHexDigit c
unfolding is_hex_digit
is_hex_digit_lem c h = elim (Bool-cases (is_digit c)) [
  | inl e ↦ inl (ground arith, ground arith)
  | inr e ↦ inr (ground arith, ground arith)
]

all_hex_digits : (s : Text) → all_chars is_hex_digit s ≡ true → All IsHexDigit s
all_hex_digits [] h = tt
all_hex_digits (c ∷ s) h =
    let (digit, rest) = and_true (is_hex_digit c) (all_chars is_hex_digit s) h in
    (is_hex_digit_lem c digit, all_hex_digits s rest)

pub is_hex-IsHex : (n : ℕ) (s : Text) → is_hex n s ≡ true → IsHex n s
unfolding is_hex
is_hex-IsHex n s h =
    let (size, digits) = and_true (length s == n) (all_chars is_hex_digit s) h in
    record { size = ground arith; digits = all_hex_digits s digits }

pub is_decimal-IsDecimal : (s : Text) → is_decimal s ≡ true → IsDecimal s
unfolding is_decimal
is_decimal-IsDecimal [] h = cc
is_decimal-IsDecimal (c ∷ []) h = one_digit c (ground arith, ground arith)
is_decimal-IsDecimal (c ∷ d ∷ s) h =
    let (bounds, digits) = and_true (leb 49 c && leb c 57) (all_chars is_digit (d ∷ s)) h in
    from_one c (d ∷ s) (ground arith) (ground arith) (all_digits (d ∷ s) digits)

is_text-string :
    (value : Option Json) → is_text value ≡ true → (s : Text) × (value ≡ some (string s))
is_text-string (some (string s)) h = (s, refl)
is_text-string none h = cc
is_text-string (some Json.null) h = cc
is_text-string (some Json.fraction) h = cc
is_text-string (some (Json.boolean b)) h = cc
is_text-string (some (Json.integer z)) h = cc
is_text-string (some (array a)) h = cc
is_text-string (some (Json.object f)) h = cc

is_package_lem : (value : Json) → is_package value ≡ true → IsPackage value
unfolding is_package
is_package_lem value h =
    let at : Text → Bool = λ key. is_text (get key (some value)) in
    let (others, build) =
      and_true (is_object (some value) && at (chars "name") && at (chars "version"))
        (at (chars "build")) h in
    let (named, version) =
      and_true (is_object (some value) && at (chars "name")) (at (chars "version")) others in
    let (shape, name) = and_true (is_object (some value)) (at (chars "name")) named in
    record {
      name = is_text-string (get (chars "name") (some value)) name;
      version = is_text-string (get (chars "version") (some value)) version;
      build = is_text-string (get (chars "build") (some value)) build;
    }

every_package-EachPackage : (items : Items) → every_package items ≡ true → EachPackage items
unfolding every_package
every_package-EachPackage no_items h = tt
every_package-EachPackage (item value rest) h =
    let (first, others) = and_true (is_package value) (every_package rest) h in
    (is_package_lem value first, every_package-EachPackage rest others)

packages_ok-EachPackage :
    (value : Option Json)
    → packages_ok value ≡ true
    → (items : Items) × (value ≡ some (array items)) × EachPackage items
unfolding packages_ok
packages_ok-EachPackage (some (array items)) h = (items, refl, every_package-EachPackage items h)
packages_ok-EachPackage none h = cc
packages_ok-EachPackage (some Json.null) h = cc
packages_ok-EachPackage (some Json.fraction) h = cc
packages_ok-EachPackage (some (Json.boolean b)) h = cc
packages_ok-EachPackage (some (Json.integer z)) h = cc
packages_ok-EachPackage (some (string s)) h = cc
packages_ok-EachPackage (some (Json.object f)) h = cc

pub contents-IsContents :
    (value : Json)
    → (is_text (get (chars "remark") (some value))
        && packages_ok (get (chars "packages") (some value)))
      ≡ true
    → IsContents value
contents-IsContents value h =
    let (remark, packages) =
      and_true (is_text (get (chars "remark") (some value)))
        (packages_ok (get (chars "packages") (some value))) h in
    record {
      remark = is_text-string (get (chars "remark") (some value)) remark;
      packages = packages_ok-EachPackage (get (chars "packages") (some value)) packages;
    }
