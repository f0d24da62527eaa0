-- ===== src/Packages/Releases/Latest.antt =====
-- The latest release: none is above it.
use Prim.Native.Nat.{Ordering, lt, eq, gt}
use mathlib.Core.List.{Memᴰ}
use mathlib.Core.List.Memᴰ.{head, tail}
use yurt_playground.Base.{
  ◌≡◌, ◌≢◌, refl, sym, ap, subst, ◌∙◌, Bool, true, false, not, List, [], ◌∷◌, Option, none, some,
  All, inl, inr, Bool-cases, if◌then◌else◌,
}
use yurt_playground.Packages.{PackageVersion}
use yurt_playground.Packages.Version.{compare_releases, or_else}
use yurt_playground.Packages.Version.Laws.{flip, compare_releases-Joins}
use yurt_playground.Packages.Releases.{
  keep, at_least, better, best_of, best, latest_release, is_candidate,
}

or_else-not_gt : (a b : Ordering) → a ≢ gt → b ≢ gt → or_else a b ≢ gt
or_else-not_gt lt b n m = λ e. cc
or_else-not_gt eq b n m = m
or_else-not_gt gt b n m = absurd (n refl)

flip-not_gt : (o : Ordering) → o ≡ flip o → o ≢ gt
flip-not_gt lt e = λ g. cc
flip-not_gt eq e = λ g. cc
flip-not_gt gt e = λ g. cc

not_above :
    (a b c : PackageVersion)
    → compare_releases a b ≢ gt
    → compare_releases b c ≢ gt
    → compare_releases a c ≢ gt
not_above a b c n m e =
    or_else-not_gt (compare_releases a b) (compare_releases b c) n m
      (sym ((compare_releases-Joins a b c).1 n m) ∙ e)

self-not_above : (a : PackageVersion) → compare_releases a a ≢ gt
self-not_above a = flip-not_gt (compare_releases a a) (compare_releases-Joins a a a).0

better-above :
    (a b : PackageVersion)
    → (compare_releases a (better a b) ≢ gt) × (compare_releases b (better a b) ≢ gt)
unfolding better
better-above a b = by_order (compare_releases a b) refl
  where
    by_order :
        (o : Ordering)
        → compare_releases a b ≡ o
        → (compare_releases a (if at_least (compare_releases a b) then a else b) ≢ gt)
          × (compare_releases b (if at_least (compare_releases a b) then a else b) ≢ gt)
    by_order lt e = rw e ((λ g. cc), self-not_above b)
    by_order eq e =
        rw e (self-not_above a, λ g. (let f = (compare_releases-Joins a b b).0 ∙ ap flip e in cc))
    by_order gt e =
        rw e (self-not_above a, λ g. (let f = (compare_releases-Joins a b b).0 ∙ ap flip e in cc))

-- What a reduce over releases returns is one of them, and none of them is above it.
abbrev pub IsBest : List PackageVersion → PackageVersion → Type 0
IsBest releases best = Memᴰ best releases × All (λ other. compare_releases other best ≢ gt) releases

better-IsBest :
    (a b r : PackageVersion) (releases : List PackageVersion)
    → IsBest (better a b ∷ releases) r
    → IsBest (a ∷ b ∷ releases) r
unfolding better
better-IsBest a b r releases (m, (above, others)) = (
  one_of (at_least (compare_releases a b)) m,
  (
    not_above a (better a b) r (better-above a b).0 above,
    (not_above b (better a b) r (better-above a b).1 above, others),
  ),
)
  where
    one_of :
        (first : Bool) → Memᴰ r ((if first then a else b) ∷ releases) → Memᴰ r (a ∷ b ∷ releases)
    one_of true (head e) = head e
    one_of true (tail m) = tail (tail m)
    one_of false (head e) = tail (head e)
    one_of false (tail m) = tail (tail m)

pub best_of-IsBest :
    (a : PackageVersion) (releases : List PackageVersion)
    → IsBest (a ∷ releases) (best_of a releases)
unfolding best_of
best_of-IsBest a [] = (head refl, (self-not_above a, tt))
best_of-IsBest a (b ∷ releases) =
    better-IsBest a b (best_of (better a b) releases) releases
      (best_of-IsBest (better a b) releases)

pub All-Mem {ℓ κ} : {A : Type ℓ} (P : A → Type κ) (xs : List A) (x : A) → All P xs → Memᴰ x xs → P x
All-Mem P [] x all m = elim m [ ]
All-Mem P (y ∷ xs) x (p, all) (head e) = subst P (sym e) p
All-Mem P (y ∷ xs) x (p, all) (tail m) = All-Mem P xs x all m

pub Mem-keep {ℓ} :
    {A : Type ℓ} (f : A → Bool) (xs : List A) (x : A)
    → Memᴰ x (keep f xs)
    → Memᴰ x xs × (f x ≡ true)
Mem-keep f [] x m = elim m [ ]
Mem-keep {A = A} f (y ∷ xs) x m = by_test (f y) refl (Mem-keep f xs x) m
  where
    by_test :
        (b : Bool)
        → f y ≡ b
        → (Memᴰ x (keep f xs) → Memᴰ x xs × (f x ≡ true))
        → Memᴰ x (if b then y ∷ keep f xs else keep f xs)
        → Memᴰ x (y ∷ xs) × (f x ≡ true)
    by_test true e rest (head same) = (head same, ap f same ∙ e)
    by_test true e rest (tail m) = (tail (rest m).0, (rest m).1)
    by_test false e rest m = (tail (rest m).0, (rest m).1)

pub keep-Mem {ℓ} :
    {A : Type ℓ} (f : A → Bool) (xs : List A) (x : A) → Memᴰ x xs → f x ≡ true → Memᴰ x (keep f xs)
keep-Mem f [] x m e = elim m [ ]
keep-Mem f (y ∷ xs) x (head same) e = rw (ap f (sym same) ∙ e) (head same)
keep-Mem f (y ∷ xs) x (tail m) e = elim (Bool-cases (f y)) [
  | inl t ↦ rw t (tail (keep-Mem f xs x m e))
  | inr u ↦ rw u (keep-Mem f xs x m e)
]

-- What the latest release of some versions may be: with none, every version is yanked; a release is one
-- of the versions, not yanked, and no version that is not yanked is above it.
abbrev pub IsLatest : List PackageVersion → Option PackageVersion → Type 0
IsLatest versions none = (other : PackageVersion) → Memᴰ other versions → other.yanked ≡ true
IsLatest versions (some release) =
    Memᴰ release versions
    × (release.yanked ≡ false)
    × ((other : PackageVersion)
        → Memᴰ other versions
        → other.yanked ≡ false
        → compare_releases other release ≢ gt)

not-true : (b : Bool) → not b ≡ true → b ≡ false
not-true true e = cc
not-true false e = refl

best-IsLatest :
    (versions candidates : List PackageVersion)
    → keep is_candidate versions ≡ candidates
    → IsLatest versions (best candidates)
unfolding best
best-IsLatest versions [] e = λ other m. elim (Bool-cases other.yanked) [
  | inl yanked ↦ yanked
  | inr unyanked ↦
      elim (subst (Memᴰ other) e (keep-Mem is_candidate versions other m (ap not unyanked))) [ ]
]
best-IsLatest versions (a ∷ releases) e =
    let chosen = best_of-IsBest a releases in
    let from =
      Mem-keep is_candidate versions (best_of a releases)
        (subst (Memᴰ (best_of a releases)) (sym e) chosen.0) in
    (
      from.0,
      not-true (best_of a releases).yanked from.1,
      λ other m unyanked.
          All-Mem (λ b. compare_releases b (best_of a releases) ≢ gt) (a ∷ releases) other chosen.1
            (subst (Memᴰ other) e (keep-Mem is_candidate versions other m (ap not unyanked))),
    )

-- For any versions of a package: when there is no latest release, every version is yanked; else the
-- latest release is one of the versions, not yanked, and no version that is not yanked is above it.
pub latest_release-IsLatest :
    (versions : List PackageVersion) → IsLatest versions (latest_release versions)
unfolding latest_release
latest_release-IsLatest versions = best-IsLatest versions (keep is_candidate versions) refl
