-- ===== src/Packages/Version/Laws.antt =====
-- Releases are in order: no two contradict each other, and neither do three.
use Prim.Native.Nat.{compare, Ordering, lt, eq, gt}
use yurt_playground.Base.{ℕ, ◌≡◌, ◌≢◌, refl, Bool, true, false, List, [], ◌∷◌, Text, arith}
use yurt_playground.Packages.{PackageVersion}
use yurt_playground.Packages.Version.{
  or_else, compare_core, compare_text, by_kind, compare_part, compare_parts, compare_pre,
  compare_versions, compare_releases, core, pre, number, is_number, build_number,
}

abbrev pub flip : Ordering → Ordering
flip lt = gt
flip eq = eq
flip gt = lt

or_else-flip : (a b : Ordering) → or_else (flip a) (flip b) ≡ flip (or_else a b)
or_else-flip lt b = refl
or_else-flip eq b = refl
or_else-flip gt b = refl

compare-flip : (a b : ℕ) → compare b a ≡ flip (compare a b)
compare-flip a b = ground arith

-- Below or the same, then below or the same: the third comparison is the sooner of the two.
abbrev pub Joins : Ordering → Ordering → Ordering → Type 0
Joins ab bc ac = ab ≢ gt → bc ≢ gt → ac ≡ or_else ab bc

or_else-lt : (o : Ordering) → o ≢ gt → lt ≡ or_else o lt
or_else-lt lt n = refl
or_else-lt eq n = refl
or_else-lt gt n = absurd (n refl)

or_else-Joins :
    (ab bc ac ab' bc' ac' : Ordering)
    → Joins ab bc ac
    → Joins ab' bc' ac'
    → Joins (or_else ab ab') (or_else bc bc') (or_else ac ac')
or_else-Joins gt bc ac ab' bc' ac' j k p q = absurd (p refl)
or_else-Joins lt gt ac ab' bc' ac' j k p q = absurd (q refl)
or_else-Joins eq gt ac ab' bc' ac' j k p q = absurd (q refl)
or_else-Joins lt lt ac ab' bc' ac' j k p q = rw (j (λ e. cc) (λ e. cc)) refl
or_else-Joins lt eq ac ab' bc' ac' j k p q = rw (j (λ e. cc) (λ e. cc)) refl
or_else-Joins eq lt ac ab' bc' ac' j k p q = rw (j (λ e. cc) (λ e. cc)) (or_else-lt ab' p)
or_else-Joins eq eq ac ab' bc' ac' j k p q = rw (j (λ e. cc) (λ e. cc)) (k p q)

compare-Joins : (a b c : ℕ) → Joins (compare a b) (compare b c) (compare a c)
compare-Joins a b c = ground arith

compare_core-Joins :
    (xs ys zs : List ℕ) → Joins (compare_core xs ys) (compare_core ys zs) (compare_core xs zs)
unfolding compare_core
compare_core-Joins [] [] [] p q = refl
compare_core-Joins [] [] (z ∷ zs) p q =
    or_else-Joins (compare 0 0) (compare 0 z) (compare 0 z) (compare_core [] [])
      (compare_core [] zs) (compare_core [] zs) (compare-Joins 0 0 z) (compare_core-Joins [] [] zs)
      p q
compare_core-Joins [] (y ∷ ys) [] p q =
    or_else-Joins (compare 0 y) (compare y 0) (compare 0 0) (compare_core [] ys)
      (compare_core ys []) (compare_core [] []) (compare-Joins 0 y 0) (compare_core-Joins [] ys [])
      p q
compare_core-Joins [] (y ∷ ys) (z ∷ zs) p q =
    or_else-Joins (compare 0 y) (compare y z) (compare 0 z) (compare_core [] ys)
      (compare_core ys zs) (compare_core [] zs) (compare-Joins 0 y z) (compare_core-Joins [] ys zs)
      p q
compare_core-Joins (x ∷ xs) [] [] p q =
    or_else-Joins (compare x 0) (compare 0 0) (compare x 0) (compare_core xs [])
      (compare_core [] []) (compare_core xs []) (compare-Joins x 0 0) (compare_core-Joins xs [] [])
      p q
compare_core-Joins (x ∷ xs) [] (z ∷ zs) p q =
    or_else-Joins (compare x 0) (compare 0 z) (compare x z) (compare_core xs [])
      (compare_core [] zs) (compare_core xs zs) (compare-Joins x 0 z) (compare_core-Joins xs [] zs)
      p q
compare_core-Joins (x ∷ xs) (y ∷ ys) [] p q =
    or_else-Joins (compare x y) (compare y 0) (compare x 0) (compare_core xs ys)
      (compare_core ys []) (compare_core xs []) (compare-Joins x y 0) (compare_core-Joins xs ys [])
      p q
compare_core-Joins (x ∷ xs) (y ∷ ys) (z ∷ zs) p q =
    or_else-Joins (compare x y) (compare y z) (compare x z) (compare_core xs ys)
      (compare_core ys zs) (compare_core xs zs) (compare-Joins x y z) (compare_core-Joins xs ys zs)
      p q

compare_text-Joins :
    (xs ys zs : Text) → Joins (compare_text xs ys) (compare_text ys zs) (compare_text xs zs)
unfolding compare_text
compare_text-Joins [] [] zs p q = refl
compare_text-Joins [] (y ∷ ys) [] p q = absurd (q refl)
compare_text-Joins [] (y ∷ ys) (z ∷ zs) p q = refl
compare_text-Joins (x ∷ xs) [] zs p q = absurd (p refl)
compare_text-Joins (x ∷ xs) (y ∷ ys) [] p q = absurd (q refl)
compare_text-Joins (x ∷ xs) (y ∷ ys) (z ∷ zs) p q =
    or_else-Joins (compare x y) (compare y z) (compare x z) (compare_text xs ys)
      (compare_text ys zs) (compare_text xs zs) (compare-Joins x y z) (compare_text-Joins xs ys zs)
      p q

by_kind-Joins :
    (a b c : Bool) (x y z : Text) → Joins (by_kind a b x y) (by_kind b c y z) (by_kind a c x z)
unfolding by_kind
by_kind-Joins true true true x y z p q =
    or_else-Joins (compare (number x) (number y)) (compare (number y) (number z))
      (compare (number x) (number z)) (compare_text x y) (compare_text y z) (compare_text x z)
      (compare-Joins (number x) (number y) (number z)) (compare_text-Joins x y z) p q
by_kind-Joins true true false x y z p q = or_else-lt (by_kind true true x y) p
by_kind-Joins true false true x y z p q = absurd (q refl)
by_kind-Joins true false false x y z p q = refl
by_kind-Joins false true c x y z p q = absurd (p refl)
by_kind-Joins false false true x y z p q = absurd (q refl)
by_kind-Joins false false false x y z p q = compare_text-Joins x y z p q

compare_parts-Joins :
    (xs ys zs : List Text) → Joins (compare_parts xs ys) (compare_parts ys zs) (compare_parts xs zs)
unfolding compare_parts compare_part
compare_parts-Joins [] [] zs p q = refl
compare_parts-Joins [] (y ∷ ys) [] p q = absurd (q refl)
compare_parts-Joins [] (y ∷ ys) (z ∷ zs) p q = refl
compare_parts-Joins (x ∷ xs) [] zs p q = absurd (p refl)
compare_parts-Joins (x ∷ xs) (y ∷ ys) [] p q = absurd (q refl)
compare_parts-Joins (x ∷ xs) (y ∷ ys) (z ∷ zs) p q =
    or_else-Joins (compare_part x y) (compare_part y z) (compare_part x z) (compare_parts xs ys)
      (compare_parts ys zs) (compare_parts xs zs)
      (by_kind-Joins (is_number x) (is_number y) (is_number z) x y z) (compare_parts-Joins xs ys zs)
      p q

compare_pre-Joins :
    (xs ys zs : List Text) → Joins (compare_pre xs ys) (compare_pre ys zs) (compare_pre xs zs)
unfolding compare_pre
compare_pre-Joins [] [] [] p q = refl
compare_pre-Joins [] [] (z ∷ zs) p q = absurd (q refl)
compare_pre-Joins [] (y ∷ ys) zs p q = absurd (p refl)
compare_pre-Joins (x ∷ xs) [] [] p q = refl
compare_pre-Joins (x ∷ xs) [] (z ∷ zs) p q = absurd (q refl)
compare_pre-Joins (x ∷ xs) (y ∷ ys) [] p q = or_else-lt (compare_parts (x ∷ xs) (y ∷ ys)) p
compare_pre-Joins (x ∷ xs) (y ∷ ys) (z ∷ zs) p q =
    compare_parts-Joins (x ∷ xs) (y ∷ ys) (z ∷ zs) p q

compare_versions-Joins :
    (a b c : Text) → Joins (compare_versions a b) (compare_versions b c) (compare_versions a c)
unfolding compare_versions
compare_versions-Joins a b c =
    or_else-Joins (compare_core (core a) (core b)) (compare_core (core b) (core c))
      (compare_core (core a) (core c)) (compare_pre (pre a) (pre b)) (compare_pre (pre b) (pre c))
      (compare_pre (pre a) (pre c)) (compare_core-Joins (core a) (core b) (core c))
      (compare_pre-Joins (pre a) (pre b) (pre c))

compare_core-flip : (xs ys : List ℕ) → compare_core ys xs ≡ flip (compare_core xs ys)
unfolding compare_core
compare_core-flip [] [] = refl
compare_core-flip [] (y ∷ ys) =
    rw (compare-flip 0 y, compare_core-flip [] ys) (or_else-flip (compare 0 y) (compare_core [] ys))
compare_core-flip (x ∷ xs) [] =
    rw (compare-flip x 0, compare_core-flip xs []) (or_else-flip (compare x 0) (compare_core xs []))
compare_core-flip (x ∷ xs) (y ∷ ys) =
    rw (compare-flip x y, compare_core-flip xs ys) (or_else-flip (compare x y) (compare_core xs ys))

compare_text-flip : (xs ys : Text) → compare_text ys xs ≡ flip (compare_text xs ys)
unfolding compare_text
compare_text-flip [] [] = refl
compare_text-flip [] (y ∷ ys) = refl
compare_text-flip (x ∷ xs) [] = refl
compare_text-flip (x ∷ xs) (y ∷ ys) =
    rw (compare-flip x y, compare_text-flip xs ys) (or_else-flip (compare x y) (compare_text xs ys))

by_kind-flip : (a b : Bool) (x y : Text) → by_kind b a y x ≡ flip (by_kind a b x y)
unfolding by_kind
by_kind-flip true true x y =
    rw (compare-flip (number x) (number y), compare_text-flip x y)
      (or_else-flip (compare (number x) (number y)) (compare_text x y))
by_kind-flip true false x y = refl
by_kind-flip false true x y = refl
by_kind-flip false false x y = compare_text-flip x y

compare_parts-flip : (xs ys : List Text) → compare_parts ys xs ≡ flip (compare_parts xs ys)
unfolding compare_parts compare_part
compare_parts-flip [] [] = refl
compare_parts-flip [] (y ∷ ys) = refl
compare_parts-flip (x ∷ xs) [] = refl
compare_parts-flip (x ∷ xs) (y ∷ ys) =
    rw (by_kind-flip (is_number x) (is_number y) x y, compare_parts-flip xs ys)
      (or_else-flip (compare_part x y) (compare_parts xs ys))

compare_pre-flip : (xs ys : List Text) → compare_pre ys xs ≡ flip (compare_pre xs ys)
unfolding compare_pre
compare_pre-flip [] [] = refl
compare_pre-flip [] (y ∷ ys) = refl
compare_pre-flip (x ∷ xs) [] = refl
compare_pre-flip (x ∷ xs) (y ∷ ys) = compare_parts-flip (x ∷ xs) (y ∷ ys)

compare_versions-flip : (a b : Text) → compare_versions b a ≡ flip (compare_versions a b)
unfolding compare_versions
compare_versions-flip a b =
    rw (compare_core-flip (core a) (core b), compare_pre-flip (pre a) (pre b))
      (or_else-flip (compare_core (core a) (core b)) (compare_pre (pre a) (pre b)))

-- Releases are in a total preorder: two compared the other way round give the opposite, and when one is
-- not above a second and that not above a third, the first is to the third as the sooner of the two
-- comparisons that is not `eq` says, and `eq` if both are.
pub compare_releases-Joins :
    (a b c : PackageVersion)
    → (compare_releases b a ≡ flip (compare_releases a b))
      × Joins (compare_releases a b) (compare_releases b c) (compare_releases a c)
unfolding compare_releases
compare_releases-Joins a b c = (
  rw
      (
        compare_versions-flip a.version b.version,
        compare-flip (build_number a.build) (build_number b.build),
      )
      (or_else-flip (compare_versions a.version b.version)
        (compare (build_number a.build) (build_number b.build))),
  or_else-Joins (compare_versions a.version b.version) (compare_versions b.version c.version)
      (compare_versions a.version c.version) (compare (build_number a.build) (build_number b.build))
      (compare (build_number b.build) (build_number c.build))
      (compare (build_number a.build) (build_number c.build))
      (compare_versions-Joins a.version b.version c.version)
      (compare-Joins (build_number a.build) (build_number b.build) (build_number c.build)),
)
