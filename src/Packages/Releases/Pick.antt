-- ===== src/Packages/Releases/Pick.antt =====
-- Of a member's versions: those of a build, the newest build, and the release that is chosen.
use Prim.Native.Nat.{gt}
use mathlib.Core.List.{Memᴰ}
use mathlib.Core.List.Memᴰ.{head, tail}
use yurt_playground.Base.{
  ℕ, ◌≤◌, ◌≡◌, ◌≢◌, refl, sym, ap, subst, ◌∙◌, true, false, List, [], ◌∷◌, some, Text, All, arith,
  inl, inr, ◌⊎◌, leb, Bool-cases, ◌==◌, ==_iff, max,
}
use yurt_playground.Packages.{PackageVersion}
use yurt_playground.Packages.Version.{compare_releases, build_number}
use yurt_playground.Packages.Releases.{keep, best, best_of, has_build, builds, max_of}
use yurt_playground.Packages.Releases.Latest.{best_of-IsBest, All-Mem, Mem-keep, keep-Mem}

-- The members' versions, each with one of a build.
abbrev pub Has : ℕ → Text × List PackageVersion → Type 0
Has n member = (v : PackageVersion) × Memᴰ v member.1 × (build_number v.build ≡ n)

pub has_build-Has :
    (n : ℕ) (name : Text) (versions : List PackageVersion)
    → has_build n versions ≡ true
    → Has n (name, versions)
has_build-Has n name [] h = cc
has_build-Has n name (v ∷ versions) h = elim (Bool-cases (build_number v.build == n)) [
  | inl same ↦ (v, head refl, (==_iff (build_number v.build) n).0 same)
  | inr other ↦
      let later = has_build-Has n name versions (rest other) in (later.0, tail later.1, later.2)
]
  where
    rest : (build_number v.build == n) ≡ false → has_build n versions ≡ true
    rest other = ground arith

pub Has-has_build :
    (n : ℕ) (versions : List PackageVersion) (v : PackageVersion)
    → Memᴰ v versions
    → build_number v.build ≡ n
    → has_build n versions ≡ true
Has-has_build n [] v m e = elim m [ ]
Has-has_build n (w ∷ versions) v (head same) e =
    rw ((==_iff (build_number w.build) n).1 (ap (λ x. build_number x.build) (sym same) ∙ e)) refl
Has-has_build n (w ∷ versions) v (tail m) e =
    let rest = Has-has_build n versions v m e in ground arith

-- The maximum is one of the numbers, and none is above it.
pub max_of-max :
    (n : ℕ) (ns : List ℕ) → Memᴰ (max_of n ns) (n ∷ ns) × All (λ m. m ≤ max_of n ns) (n ∷ ns)
unfolding max_of
max_of-max n [] = (head refl, (omega arith, tt))
max_of-max n (m ∷ ns) =
    let later = max_of-max (max n m) ns in
    (one_of (max n m) (max-cases n m) later.0, (below later.1.0, (below' later.1.0, later.1.1)))
  where
    max-cases : (n m : ℕ) → (max n m ≡ n) ⊎ (max n m ≡ m)
    max-cases n m = elim (Bool-cases (leb m n)) [
      | inl h ↦ inl (ground arith)
      | inr h ↦ inr (ground arith)
    ]

    one_of :
        (k : ℕ)
        → (k ≡ n) ⊎ (k ≡ m)
        → Memᴰ (max_of (max n m) ns) (k ∷ ns)
        → Memᴰ (max_of (max n m) ns) (n ∷ m ∷ ns)
    one_of k (inl e) (head same) = head (same ∙ e)
    one_of k (inr e) (head same) = tail (head (same ∙ e))
    one_of k c (tail t) = tail (tail t)

    below : max n m ≤ max_of (max n m) ns → n ≤ max_of (max n m) ns
    below h = omega (arith, h)

    below' : max n m ≤ max_of (max n m) ns → m ≤ max_of (max n m) ns
    below' h = omega (arith, h)

pub Mem-builds :
    (n : ℕ) (versions : List PackageVersion)
    → has_build n versions ≡ true
    → Memᴰ n (builds versions)
Mem-builds n [] h = cc
Mem-builds n (v ∷ versions) h = elim (Bool-cases (build_number v.build == n)) [
  | inl same ↦ head (sym ((==_iff (build_number v.build) n).0 same))
  | inr other ↦ tail (Mem-builds n versions (rest other))
]
  where
    rest : (build_number v.build == n) ≡ false → has_build n versions ≡ true
    rest other = ground arith

-- The release that is chosen of a member: of the build, and none of that build is above it.
abbrev pub IsChosen : ℕ → List PackageVersion → PackageVersion → Type 0
IsChosen n versions v =
    Memᴰ v versions
    × (build_number v.build ≡ n)
    × ((other : PackageVersion)
        → Memᴰ other versions
        → build_number other.build ≡ n
        → compare_releases other v ≢ gt)

pub best-IsChosen :
    (n : ℕ) (name : Text) (versions : List PackageVersion)
    → has_build n versions ≡ true
    → (v : PackageVersion) × (best (keep (λ v. build_number v.build == n) versions) ≡ some v)
      × IsChosen n versions v
unfolding best
best-IsChosen n name versions h =
    of_kept (keep (λ v. build_number v.build == n) versions) refl (has_build-Has n name versions h)
  where
    of_kept :
        (kept : List PackageVersion)
        → keep (λ v. build_number v.build == n) versions ≡ kept
        → Has n (name, versions)
        → (v : PackageVersion) × (best kept ≡ some v) × IsChosen n versions v
    of_kept [] e (v, m, same) =
        elim (subst (Memᴰ v) e (
          keep-Mem (λ v. build_number v.build == n) versions v m
            ((==_iff (build_number v.build) n).1 same))) [ ]
    of_kept (a ∷ rest) e has =
        let chosen = best_of-IsBest a rest in
        let from =
          Mem-keep (λ v. build_number v.build == n) versions (best_of a rest)
            (subst (Memᴰ (best_of a rest)) (sym e) chosen.0) in
        (
          best_of a rest,
          refl,
          (
            from.0,
            (==_iff (build_number (best_of a rest).build) n).0 from.1,
            λ other m same.
                All-Mem (λ b. compare_releases b (best_of a rest) ≢ gt) (a ∷ rest) other chosen.1
                  (subst (Memᴰ other) e (
                    keep-Mem (λ v. build_number v.build == n) versions other m
                      ((==_iff (build_number other.build) n).1 same))),
          ),
        )
