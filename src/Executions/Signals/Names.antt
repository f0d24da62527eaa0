-- ===== src/Executions/Signals/Names.antt =====
-- Names and numbers of signals fit together.
use yurt_playground.Base.{
  if◌then◌else◌, false, ℕ_discrete, ℕ, zero, suc, ◌≤◌, ◌≡◌, refl, sym, ap, ◌∙◌, Bool, true, ◌||◌,
  not, List, [], ◌∷◌, Text, ok, ◌==◌, text_eq, text_eq_iff, text_eq_refl, arith, decimal, some,
  Bool-cases, All, Option-cases, inl, inr,
}
use yurt_playground.Executions.Signals.{signals, signal_name, signal_number, full_name, find_signal}

abbrev Named : List (Text × ℕ) → Type 0
Named = All (λ e. e.0 ≡ signal_name e.1)

signals-Named : Named signals
unfolding signal_name
signals-Named = (refl, (refl, (refl, (refl, (refl, (refl, (refl, tt)))))))

find_signal-name :
    (name : Text) (n : ℕ) (ks : List (Text × ℕ))
    → Named ks
    → find_signal name ks ≡ some n
    → name ≡ signal_name n
unfolding find_signal
find_signal-name name n [] h e = cc
find_signal-name name n ((k, m) ∷ ks) h e = elim (Bool-cases (text_eq k name)) [
  | inl same ↦
      let number : some m ≡ some n = rw (same, find_signal) at e in
      sym ((text_eq_iff k name).0 same) ∙ h.0 ∙ ap signal_name (cc)
  | inr other ↦ find_signal-name name n ks h.1 (rw (other, find_signal) at e)
]

-- The name that a kill records for the signal it sends, whatever the caller's spelling of it, is
-- the name under which a death by that signal is reported.
pub full_name-signal_number :
    (to_upper_case : Text → Text) (signal : Text) (n : ℕ)
    → signal_number to_upper_case signal ≡ ok n
    → full_name to_upper_case signal ≡ signal_name n
unfolding signal_number
full_name-signal_number to_upper_case signal n e =
    elim (Option-cases (find_signal (full_name to_upper_case signal) signals)) [
      | inl missed ↦ cc (rw (missed, signal_number) at e)
      | inr (k, found) ↦ find_signal-name _ n signals signals-Named (ground arith)
    ]

-- A test passed by every signal number up to a bound.
passes_to : (ℕ → Bool) → ℕ → Bool
passes_to test zero = test 0
passes_to test (suc top) = if test (suc top) then passes_to test top else false

passes : (test : ℕ → Bool) (top s : ℕ) → passes_to test top ≡ true → s ≤ top → test s ≡ true
unfolding passes_to
passes test zero s all h = rw (the_zero s h) all
  where
    the_zero : (s : ℕ) → s ≤ 0 → s ≡ 0
    the_zero s h = omega arith
passes test (suc top) s all h = elim (ℕ_discrete s (suc top)) [
  | yes last ↦ rw last (ground arith)
  | no earlier ↦ passes test top s (ground arith) (omega arith)
]

differ : ℕ → ℕ → Bool
differ m n = m == n || not (text_eq (signal_name m) (signal_name n))

names_differ : passes_to (λ m. passes_to (differ m) 64) 64 ≡ true
unfolding passes_to differ signal_name decimal
names_differ = refl

-- Two signals of Linux (numbers up to 64) with one name are one signal.
pub signal_name-injective : (m n : ℕ) → m ≤ 64 → n ≤ 64 → signal_name m ≡ signal_name n → m ≡ n
unfolding differ
signal_name-injective m n hm hn e =
    let row : passes_to (differ m) 64 ≡ true =
      passes (λ m. passes_to (differ m) 64) 64 m names_differ hm in
    let cell : differ m n ≡ true = passes (differ m) 64 n row hn in
    ground (arith, text_eq_refl (signal_name n))
