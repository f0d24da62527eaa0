-- ===== src/Packages/Split.antt =====
-- Splitting at a character that a text lacks, and at one that it has.
use yurt_playground.Base.{ℕ, ◌≡◌, refl, true, false, [], ◌∷◌, ◌++◌, Text, ◌==◌, All, arith}
use yurt_playground.Packages.{split, push_part}

abbrev pub Lacks : ℕ → Text → Type 0
Lacks c s = All (λ d. (d == c) ≡ false) s

pub split-Lacks : (c : ℕ) (s : Text) → Lacks c s → split c s ≡ s ∷ []
unfolding split push_part
split-Lacks c [] h = refl
split-Lacks c (d ∷ s) (h, hs) = rw (h, split-Lacks c s hs) refl

pub split-append : (c : ℕ) (s rest : Text) → Lacks c s → split c (s ++ c ∷ rest) ≡ s ∷ split c rest
unfolding split push_part
split-append c [] rest h = let same : (c == c) ≡ true = ground arith in rw same refl
split-append c (d ∷ s) rest (h, hs) = rw (h, split-append c s rest hs) refl
