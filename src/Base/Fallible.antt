-- ===== src/Base/Fallible.antt =====
-- A call that returns a value or throws, as a value, with the `do` notation.
use mathlib.Core.Path.{◌≡◌, refl, ap}
use mathlib.Core.Logic.{◌⊎◌, inl, inr}
use mathlib.Core.Option.{Option, none, some}
use mathlib.Core.Bool.{Bool, true, false}

pub data Outcome {ℓ} (E : Type 0) (A : Type ℓ) : Type ℓ where
  ok : A → Outcome E A
  err : E → Outcome E A

module _ {ℓ κ} {E : Type 0} {A : Type ℓ} {B : Type κ} where
  infixl 5 ◌>>=◌
  abbrev pub ◌>>=◌ : Outcome E A → (A → Outcome E B) → Outcome E B
  err thrown >>= next = err thrown
  ok value >>= next = next value

  -- A chain that returns has a first call that returned.
  pub >>=-eq-ok :
      (call : Outcome E A) (next : A → Outcome E B) {result : B}
      → (call >>= next) ≡ ok result
      → (value : A) × (call ≡ ok value) × (next value ≡ ok result)
  >>=-eq-ok (err thrown) next h = cc
  >>=-eq-ok (ok value) next h = (value, refl, h)

-- `if (!test) throw thrown`, before what follows.
abbrev pub unless_throw : {E : Type 0} → E → Bool → Outcome E (Unit {0})
unless_throw thrown false = err thrown
unless_throw thrown true = ok tt

infixl 5 ◌>>◌
abbrev pub ◌>>◌ {ℓ} : {E : Type 0} {B : Type ℓ} → Outcome E (Unit {0}) → Outcome E B → Outcome E B
err thrown >> next = err thrown
ok _ >> next = next

pub Outcome-cases {ℓ} :
    {E : Type 0} {A : Type ℓ} (m : Outcome E A) → ((e : E) × (m ≡ err e)) ⊎ ((a : A) × (m ≡ ok a))
Outcome-cases (ok a) = inr (a, refl)
Outcome-cases (err e) = inl (e, refl)

abbrev value_or : {E A : Type 0} → A → Outcome E A → A
value_or other (ok a) = a
value_or other (err e) = other

pub ok-injective : {E A : Type 0} {a b : A} → ◌≡◌ {A = Outcome E A} (ok a) (ok b) → a ≡ b
ok-injective {a = a} h = ap (value_or a) h

-- What a call returns, where it does not throw.
abbrev pub success {ℓ} : {E : Type 0} {A : Type ℓ} → Outcome E A → Option A
success (ok a) = some a
success (err e) = none

pub success-ok {ℓ} :
    {E : Type 0} {A : Type ℓ} (m : Outcome E A) (a : A) → success m ≡ some a → m ≡ ok a
success-ok (ok b) a h = cc
success-ok (err e) a h = cc

pub success-err {ℓ} :
    {E : Type 0} {A : Type ℓ} (m : Outcome E A) → success m ≡ none → (e : E) × (m ≡ err e)
success-err (ok b) h = cc
success-err (err e) h = (e, refl)
