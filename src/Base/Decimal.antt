-- ===== src/Base/Decimal.antt =====
-- A number printed in decimal, as `${n}` prints it, and read back.
use Prim.Native.Nat.{ℕ, zero, suc, ◌+◌, ◌-◌, ◌*◌, ◌/◌, ◌%◌, ◌^◌, ◌<◌, ◌≤◌}
use mathlib.Core.Path.{◌≡◌, sym, ap, ◌∙◌}
use mathlib.Core.Logic.{inl, inr}
use mathlib.Core.Bool.{Bool, false, ◌&&◌}
use mathlib.Core.List.{[], ◌∷◌, ◌++◌, append_assoc}
use native.Mathlib.Omega.{arith}
use native.Mathlib.Nat.{pow-suc}
use yurt_playground.Base.Tests.{ltb, leb, if◌then◌else◌, Bool-cases}
use yurt_playground.Base.Lists.{Text, length, length-append}

abbrev pub is_digit : ℕ → Bool
is_digit c = leb 48 c && leb c 57

-- The digits of `n`, which needs fewer than `n + 1` rounds.
decimal_rounds : ℕ → ℕ → Text
decimal_rounds zero n = []
decimal_rounds (suc f) n =
    let front = decimal_rounds f (n / 10) in
    if ltb n 10 then (48 + n) ∷ [] else front ++ (48 + n % 10) ∷ []

unfoldable pub decimal : ℕ → Text
unfolding decimal_rounds
decimal n = decimal_rounds (suc n) n

-- The number at the front of a text, and what follows it.
unfoldable pub read_decimal : ℕ → Text → ℕ × Text
read_decimal acc [] = (acc, [])
read_decimal acc (c ∷ s) =
    let rest = read_decimal (acc * 10 + (c - 48)) s in if is_digit c then rest else (acc, c ∷ s)

read-rounds :
    (f n : ℕ) (rest : Text)
    → n < f
    → read_decimal 0 (decimal_rounds f n ++ rest) ≡ read_decimal n rest
unfolding decimal_rounds read_decimal
read-rounds zero n rest h = elim h [ ]
read-rounds (suc f) n rest h = elim (Bool-cases (ltb n 10)) [
  | inl small ↦ rw small (ground arith)
  | inr large ↦
      rw (large, append_assoc (decimal_rounds f (n / 10)) ((48 + n % 10) ∷ []) rest)
        (read-rounds f (n / 10) ((48 + n % 10) ∷ rest) (ground arith) ∙ ground arith)
]

-- Printing then reading gives the number back, and leaves what follows.
pub read_decimal-decimal :
    (n : ℕ) (rest : Text) → read_decimal 0 (decimal n ++ rest) ≡ read_decimal n rest
unfolding decimal
read_decimal-decimal n rest = read-rounds (suc n) n rest (omega arith)

read-stop : (acc c : ℕ) (s : Text) → is_digit c ≡ false → read_decimal acc (c ∷ s) ≡ (acc, c ∷ s)
unfolding read_decimal
read-stop acc c s h = rw h

-- Two numbers, each followed by a character that is no digit, are told apart in a text.
pub decimal-injective :
    (m n c : ℕ) (s t : Text) → is_digit c ≡ false → decimal m ++ c ∷ s ≡ decimal n ++ c ∷ t → m ≡ n
decimal-injective m n c s t h e =
    let p : read_decimal m (c ∷ s) ≡ read_decimal n (c ∷ t) =
      sym (read_decimal-decimal m (c ∷ s))
      ∙ ap (read_decimal 0) e
      ∙ read_decimal-decimal n (c ∷ t) in
    ap (λ (q : ℕ × Text). q.0) (sym (read-stop m c s h) ∙ p ∙ read-stop n c t h)

rounds-length_mono :
    (f g m n : ℕ)
    → m < f
    → n < g
    → m ≤ n
    → length (decimal_rounds f m) ≤ length (decimal_rounds g n)
unfolding decimal_rounds
rounds-length_mono zero g m n h k l = elim h [ ]
rounds-length_mono (suc f) zero m n h k l = elim k [ ]
rounds-length_mono (suc f) (suc g) m n h k l = ground (
  arith,
  rounds-length_mono f g (m / 10) (n / 10),
  length-append (decimal_rounds f (m / 10)) ((48 + m % 10) ∷ []),
  length-append (decimal_rounds g (n / 10)) ((48 + n % 10) ∷ []),
)

-- A smaller number is no longer in decimal.
pub length-decimal_mono : (m n : ℕ) → m ≤ n → length (decimal m) ≤ length (decimal n)
unfolding decimal
length-decimal_mono m n h = rounds-length_mono (suc m) (suc n) m n (omega arith) (omega arith) h

rounds-length-le : (k f n : ℕ) → n < f → n < 10 ^ suc k → length (decimal_rounds f n) ≤ suc k
unfolding decimal_rounds
rounds-length-le k zero n h l = elim h [ ]
rounds-length-le zero (suc f) n h l = ground (arith, pow-suc 10 0)
rounds-length-le (suc k) (suc f) n h l = ground (
  arith,
  rounds-length-le k f (n / 10),
  length-append (decimal_rounds f (n / 10)) ((48 + n % 10) ∷ []),
  pow-suc 10 (suc k),
)

-- A number below 10 ^ k has k digits at most.
pub length-decimal-le : (k n : ℕ) → n < 10 ^ suc k → length (decimal n) ≤ suc k
unfolding decimal
length-decimal-le k n h = rounds-length-le k (suc n) n (omega arith) h
