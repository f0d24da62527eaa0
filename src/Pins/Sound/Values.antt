-- ===== src/Pins/Sound/Values.antt =====
-- What the checks of single values of a snapshot's pin guarantee.
use yurt_playground.Base.{
  ℕ, zero, suc, ◌≤◌, ◌≡◌, inl, inr, true, ◌&&◌, Option, none, some, Text, [], ◌∷◌, Outcome, ok,
  ◌>>=◌, >>=-eq-ok, leb, arith, Bool-cases, pos, negsuc,
}
use yurt_playground.StoreLog.{max_safe_integer}
use yurt_playground.Pins.{PinError, required_text}
use yurt_playground.Pins.Value.{Json, string, integer}
use yurt_playground.Pins.Sound.Forms.{
  IsHex, IsDecimal, IsNonempty, nonempty, is_hex-IsHex, is_decimal-IsDecimal,
}
use yurt_playground.Pins.Snapshot.{
  is_decimal, is_hex, hex_text, decimal_text, positive, safe_from, nullable, optional,
}

abbrev pub Holds : {A : Type 0} → (A → Type 0) → Option A → Type 0
Holds P none = Unit
Holds P (some a) = P a

pub hex_text-ok :
    (n : ℕ) (thrown : PinError) (value : Option Json) (s : Text)
    → hex_text n thrown value ≡ ok s
    → IsHex n s
unfolding hex_text
hex_text-ok n thrown (some (string text)) s h = elim (Bool-cases (is_hex n text)) [
  | inl e ↦
      let h' = rw (e, hex_text) at h in
      let same : text ≡ s = cc in rw (← same) (is_hex-IsHex n text e)
  | inr e ↦ let h' = rw (e, hex_text) at h in cc
]
hex_text-ok n thrown none s h = cc
hex_text-ok n thrown (some Json.null) s h = cc
hex_text-ok n thrown (some Json.fraction) s h = cc
hex_text-ok n thrown (some (Json.boolean b)) s h = cc
hex_text-ok n thrown (some (integer z)) s h = cc
hex_text-ok n thrown (some (Json.array a)) s h = cc
hex_text-ok n thrown (some (Json.object f)) s h = cc

pub positive-ok :
    (thrown : PinError) (value : Option Json) (n : ℕ) → positive thrown value ≡ ok n → 1 ≤ n
unfolding positive
positive-ok thrown (some (integer (pos (suc m)))) n h = let same : suc m ≡ n = cc in omega arith
positive-ok thrown (some (integer (pos zero))) n h = cc
positive-ok thrown (some (integer (negsuc m))) n h = cc
positive-ok thrown none n h = cc
positive-ok thrown (some (string text)) n h = cc
positive-ok thrown (some Json.null) n h = cc
positive-ok thrown (some Json.fraction) n h = cc
positive-ok thrown (some (Json.boolean b)) n h = cc
positive-ok thrown (some (Json.array a)) n h = cc
positive-ok thrown (some (Json.object f)) n h = cc

and_le :
    (low m : ℕ) → (leb low m && leb m max_safe_integer) ≡ true → (low ≤ m) × (m ≤ max_safe_integer)
and_le low m h = ground arith

pub safe_from-ok :
    (low : ℕ) (thrown : PinError) (value : Option Json) (n : ℕ)
    → safe_from low thrown value ≡ ok n
    → (low ≤ n) × (n ≤ max_safe_integer)
unfolding safe_from
safe_from-ok low thrown (some (integer (pos m))) n h =
    elim (Bool-cases (leb low m && leb m max_safe_integer)) [
      | inl e ↦
          let h' = rw (e, safe_from) at h in let same : m ≡ n = cc in rw (← same) (and_le low m e)
      | inr e ↦ let h' = rw (e, safe_from) at h in cc
    ]
safe_from-ok low thrown (some (integer (negsuc m))) n h = cc
safe_from-ok low thrown none n h = cc
safe_from-ok low thrown (some (string text)) n h = cc
safe_from-ok low thrown (some Json.null) n h = cc
safe_from-ok low thrown (some Json.fraction) n h = cc
safe_from-ok low thrown (some (Json.boolean b)) n h = cc
safe_from-ok low thrown (some (Json.array a)) n h = cc
safe_from-ok low thrown (some (Json.object f)) n h = cc

pub decimal_text-ok :
    (thrown : PinError) (value : Option Json) (s : Text)
    → decimal_text thrown value ≡ ok s
    → IsDecimal s
unfolding decimal_text
decimal_text-ok thrown (some (string text)) s h = elim (Bool-cases (is_decimal text)) [
  | inl e ↦
      let h' = rw (e, decimal_text) at h in
      let same : text ≡ s = cc in rw (← same) (is_decimal-IsDecimal text e)
  | inr e ↦ let h' = rw (e, decimal_text) at h in cc
]
decimal_text-ok thrown none s h = cc
decimal_text-ok thrown (some Json.null) s h = cc
decimal_text-ok thrown (some Json.fraction) s h = cc
decimal_text-ok thrown (some (Json.boolean b)) s h = cc
decimal_text-ok thrown (some (integer z)) s h = cc
decimal_text-ok thrown (some (Json.array a)) s h = cc
decimal_text-ok thrown (some (Json.object f)) s h = cc

pub required_text-ok :
    (thrown : PinError) (value : Option Json) (s : Text)
    → required_text thrown value ≡ ok s
    → IsNonempty s
unfolding required_text
required_text-ok thrown (some (string (c ∷ text))) s h =
    let same : c ∷ text ≡ s = cc in rw (← same) (nonempty c text)
required_text-ok thrown (some (string [])) s h = cc
required_text-ok thrown none s h = cc
required_text-ok thrown (some Json.null) s h = cc
required_text-ok thrown (some Json.fraction) s h = cc
required_text-ok thrown (some (Json.boolean b)) s h = cc
required_text-ok thrown (some (integer z)) s h = cc
required_text-ok thrown (some (Json.array a)) s h = cc
required_text-ok thrown (some (Json.object f)) s h = cc

-- What `read` guarantees of a text holds of the text that is null or read.
module _ (P : Text → Type 0) (read : Option Json → Outcome PinError Text)
    (read-ok : (value : Option Json) (s : Text) → read value ≡ ok s → P s) where
  read_some :
      (value : Option Json) (s : Option Text)
      → (read value >>= (λ text. ok (some text))) ≡ ok s
      → Holds P s
  read_some value s h =
      let (text, a, h1) = >>=-eq-ok (read value) _ h in
      let same : some text ≡ s = cc in rw (← same) (read-ok value text a)

  pub nullable-ok : (value : Option Json) (s : Option Text) → nullable read value ≡ ok s → Holds P s
  unfolding nullable
  nullable-ok (some Json.null) s h = let same : none ≡ s = cc in rw (← same) tt
  nullable-ok (some (string text)) s h = read_some (some (string text)) s h
  nullable-ok none s h = read_some none s h
  nullable-ok (some Json.fraction) s h = read_some (some Json.fraction) s h
  nullable-ok (some (Json.boolean b)) s h = read_some (some (Json.boolean b)) s h
  nullable-ok (some (integer z)) s h = read_some (some (integer z)) s h
  nullable-ok (some (Json.array a)) s h = read_some (some (Json.array a)) s h
  nullable-ok (some (Json.object f)) s h = read_some (some (Json.object f)) s h

pub optional-positive-ok :
    (thrown : PinError) (value : Option Json) (m : Option ℕ)
    → optional (positive thrown) value ≡ ok m
    → Holds (λ n. 1 ≤ n) m
optional-positive-ok thrown none m h = let same : none ≡ m = cc in rw (← same) tt
optional-positive-ok thrown (some value) m h =
    let (n, a, h1) = >>=-eq-ok (positive thrown (some value)) _ h in
    let same : some n ≡ m = cc in rw (← same) (positive-ok thrown (some value) n a)
