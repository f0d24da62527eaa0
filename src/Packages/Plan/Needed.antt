-- ===== src/Packages/Plan/Needed.antt =====
-- What the walk plans is what the package needs: itself, and what its releases depend on, less what is
-- installed.
use yurt_playground.Base.{
  ℕ, zero, suc, ◌≡◌, refl, sym, ap, ◌∙◌, ◌≢◌, ◌↔◌, inl, inr, true, false, List, [], ◌∷◌, ◌++◌,
  Option, none, some, Text, includes, text_eq, text_eq_iff, text_eq_refl, All, All-append, arith,
  Bool-cases, Option-cases, append-nil,
}
use yurt_playground.Packages.Plan.{
  Release, Metadata, Walked, latest_of, names_of, visit_each, push_release, visit, count_files,
  walk, relayed_install_plan,
}
use yurt_playground.Packages.Plan.Walk.{
  In, In-cases, count_unseen-le, IsHad, IsDone, Visited, visit-Visited,
}

-- What installing `name` needs: a package that is not installed, and what the latest release of a needed
-- package depends on.
pub data Needed (metadata : Metadata) (installed : List Text) (name : Text) : Text → Type 0 where
  itself : includes name installed ≡ false → Needed metadata installed name name
  depended :
      {x dep : Text} (release : Release)
      → Needed metadata installed name x
      → latest_of metadata x ≡ some release
      → In dep (names_of release.version.depends)
      → includes dep installed ≡ false
      → Needed metadata installed name dep

-- The latest releases of some packages, of those that have one.
abbrev pub with_release : Option Release → List Release → List Release
with_release none rest = rest
with_release (some release) rest = release ∷ rest

abbrev pub releases_of : Metadata → List Text → List Release
releases_of metadata [] = []
releases_of metadata (x ∷ xs) = with_release (latest_of metadata x) (releases_of metadata xs)

abbrev pub Distinct : List Text → Type 0
Distinct [] = Unit
Distinct (x ∷ xs) = (includes x xs ≡ false) × Distinct xs

includes-push :
    (x w : Text) (xs : List Text)
    → includes x xs ≡ false
    → w ≢ x
    → includes x (xs ++ w ∷ []) ≡ false
includes-push x w xs h other = elim (Bool-cases (includes x (xs ++ w ∷ []))) [
  | inl e ↦ elim (In-cases x w xs e) [ inl old ↦ cc | inr same ↦ absurd (other same) ]
  | inr e ↦ e
]

Distinct-push :
    (w : Text) (xs : List Text) → Distinct xs → includes w xs ≡ false → Distinct (xs ++ w ∷ [])
Distinct-push w [] h new = (refl, tt)
Distinct-push w (x ∷ xs) (h, hs) new = elim (Bool-cases (text_eq x w)) [
  | inl e ↦ let new' = rw e at new in cc
  | inr e ↦ (
    includes-push x w xs h
        (λ same. let yes_eq : text_eq x w ≡ true = (text_eq_iff x w).1 (sym same) in cc),
    Distinct-push w xs hs (rw e at new),
  )
]

releases_of-append :
    (metadata : Metadata) (xs : List Text) (w : Text)
    → releases_of metadata (xs ++ w ∷ [])
      ≡ releases_of metadata xs ++ with_release (latest_of metadata w) []
releases_of-append metadata [] w = refl
releases_of-append metadata (x ∷ xs) w = elim (Option-cases (latest_of metadata x)) [
  | inl e ↦ rw e (releases_of-append metadata xs w)
  | inr (release, e) ↦ rw e (ap (λ t. release ∷ t) (releases_of-append metadata xs w))
]

In-first : (x : Text) (xs : List Text) → In x (x ∷ xs)
In-first x xs = rw (text_eq_refl x) refl

In-later : (x y : Text) (xs : List Text) → In x xs → In x (y ∷ xs)
In-later x y xs h = elim (Bool-cases (text_eq y x)) [ inl e ↦ rw e refl | inr e ↦ rw e h ]

All-In : (P : Text → Type 0) (xs : List Text) (x : Text) → All P xs → In x xs → P x
All-In P [] x all h = cc
All-In P (y ∷ xs) x (p, all) h = elim (Bool-cases (text_eq y x)) [
  | inl e ↦ let same : y ≡ x = (text_eq_iff y x).0 e in rw (← same) p
  | inr e ↦ All-In P xs x all (rw e at h)
]

module _ (metadata : Metadata) (installed : List Text) (name : Text) where
  abbrev IsNeeded : Text → Type 0
  IsNeeded x = Needed metadata installed name x

  -- What holds of a walk all along.
  record Kept (s : Walked) : Type 0 where
    plan_is : s.plan ≡ releases_of metadata s.seen
    distinct : Distinct s.seen
    needed : All IsNeeded s.seen

  -- A package to visit: needed, unless it is installed.
  abbrev MayVisit : Text → Type 0
  MayVisit x = includes x installed ≡ false → IsNeeded x

  visit_each-Kept :
      (depth : ℕ)
      → ((x : Text) (s : Walked) → MayVisit x → Kept s → Kept (visit metadata installed depth x s))
      → (names : List Text) (s : Walked) → All MayVisit names
      → Kept s
      → Kept (visit_each (visit metadata installed depth) names s)
  unfolding visit_each
  visit_each-Kept depth one [] s may kept = kept
  visit_each-Kept depth one (x ∷ names) s (may, rest) kept =
      visit_each-Kept depth one names (visit metadata installed depth x s) rest (one x s may kept)

  may_visit :
      (x : Text) (release : Release) (names : List Text)
      → IsNeeded x
      → latest_of metadata x ≡ some release
      → ((dep : Text) → In dep names → In dep (names_of release.version.depends))
      → All MayVisit names
  may_visit x release [] needed found all = tt
  may_visit x release (dep ∷ names) needed found all = (
    depended release needed found (all dep (In-first dep names)),
    may_visit x release names needed found (λ d h. all d (In-later d dep names h)),
  )

  visit-Kept :
      (depth : ℕ) (x : Text) (s : Walked)
      → MayVisit x
      → Kept s
      → Kept (visit metadata installed depth x s)
  unfolding visit push_release
  visit-Kept zero x s may kept = kept
  visit-Kept (suc depth) x s may kept = elim (Bool-cases (includes x s.seen)) [
    | inl seen ↦ rw seen kept
    | inr new ↦ elim (Bool-cases (includes x installed)) [
      | inl has ↦ rw (new, has) kept
      | inr absent ↦
          let needed : All IsNeeded (s.seen ++ x ∷ []) =
            All-append IsNeeded s.seen (x ∷ []) kept.needed (may absent, tt) in
          let distinct = Distinct-push x s.seen kept.distinct new in
          let planned = releases_of-append metadata s.seen x in
          elim (Option-cases (latest_of metadata x)) [
            | inl missing ↦
                let still : s.plan ≡ releases_of metadata (s.seen ++ x ∷ []) =
                  kept.plan_is
                  ∙ sym (planned ∙ rw missing (append-nil (releases_of metadata s.seen))) in
                rw (new, absent, missing)
                  (record { plan_is = still; distinct = distinct; needed = needed })
            | inr (release, found) ↦
                let more : s.plan ++ release ∷ [] ≡ releases_of metadata (s.seen ++ x ∷ []) =
                  ap (λ t. t ++ release ∷ []) kept.plan_is ∙ sym (planned ∙ rw found refl) in
                rw (new, absent, found)
                  (visit_each-Kept depth (visit-Kept depth) (names_of release.version.depends) _
                    (may_visit x release (names_of release.version.depends) (may absent) found
                      (λ d h. h))
                    (record { plan_is = more; distinct = distinct; needed = needed }))
          ]
    ]
  ]

  -- Every needed package is seen, when what is seen is done.
  Needed-In :
      (seen : List Text) (x : Text)
      → IsHad metadata installed seen name
      → ((y : Text) → In y seen → IsDone metadata installed seen y)
      → IsNeeded x
      → In x seen
  unfolding IsDone
  Needed-In seen x first done (itself absent) = elim first [ inl h ↦ h | inr h ↦ cc ]
  Needed-In seen x first done (depended {x = y} {dep} release needed found dep_of absent) =
      elim (All-In (IsHad metadata installed seen) (names_of release.version.depends) dep
        (done y (Needed-In seen y first done needed) release found) dep_of) [
          | inl h ↦ h
          | inr h ↦ cc
        ]

  -- The walk of an install plans the latest release of each package that it needs, of those that have one,
  -- and nothing else, each once: a package is planned for when it is the one asked for, or the latest
  -- release of a planned one depends on it, and it is not installed. The depth given is enough, whatever
  -- cycles the dependencies have.
  pub relayed_install_plan-Needed :
      (order : List Text) × (relayed_install_plan metadata name installed
        ≡ releases_of metadata order)
      × Distinct order
      × ((x : Text) → In x order ↔ Needed metadata installed name x)
  unfolding relayed_install_plan walk
  relayed_install_plan-Needed =
      let start : Walked = record { seen = []; plan = [] } in
      let end : Walked = visit metadata installed (suc (count_files metadata)) name start in
      let kept : Kept end =
        visit-Kept (suc (count_files metadata)) name start itself
          (record { plan_is = refl; distinct = tt; needed = tt }) in
      let visited : Visited metadata installed (name ∷ []) start end =
        visit-Visited metadata installed (suc (count_files metadata)) name start
          (omega (arith, count_unseen-le metadata)) in
      (
        end.seen,
        kept.plan_is,
        kept.distinct,
        λ x. (
          λ h. All-In IsNeeded end.seen x kept.needed h,
          λ n.
              Needed-In end.seen x visited.had.0
                (λ y h. elim (visited.done y h) [ inl none_before ↦ cc | inr done ↦ done ]) n,
        ),
      )
