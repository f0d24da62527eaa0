-- ===== src/Packages/Releases/Set.antt =====
-- A set that is chosen is complete, of one build, and the newest such.
use mathlib.Core.List.{Memᴰ}
use yurt_playground.Base.{
  ℕ, ◌≤◌, ◌≡◌, refl, sym, ap, subst, ◌∙◌, true, List, [], ◌∷◌, Option, none, some, Text, Outcome,
  ok, err, ◌>>=◌, arith, includes,
}
use yurt_playground.Packages.{PackageVersion, Catalog, lookup}
use yurt_playground.Packages.Version.{build_number}
use yurt_playground.Packages.Releases.{
  keep, InstalledRelease, PinnedRelease, SetError, no_package, no_complete_set, no_names,
  no_release, pin_of, is_eligible, eligible_versions, members, has_build, all_have, builds, common,
  max_of, pinned, choose, newest_set, of_members, resolve_set,
}
use yurt_playground.Packages.Releases.Latest.{All-Mem, Mem-keep, keep-Mem}
use yurt_playground.Packages.Releases.Pick.{
  max_of-max, Mem-builds, IsChosen, best-IsChosen, Has-has_build,
}

module _ (to_lower_case : Text → Text) (catalog : Catalog) (installed : List InstalledRelease) where
  abbrev pub release_of : Text → PackageVersion → PinnedRelease
  release_of name v = record {
    name = name;
    version = v.version;
    build = v.build;
    sha256 = to_lower_case v.sha256;
    size = v.size;
    url = v.url;
  }

  -- The members, by their names.
  abbrev From : List Text → List (Text × List PackageVersion) → Type 0
  From [] [] = Unit
  From [] (member ∷ rest) = ⊥
  From (name ∷ names) [] = ⊥
  From (name ∷ names) (member ∷ rest) =
      ((versions : List PackageVersion) × (lookup name catalog.metadata ≡ some versions)
        × (member ≡ (name, keep (is_eligible (pin_of name installed)) versions)))
      × From names rest

  -- Of each member, in turn, the best eligible release of the build.
  abbrev pub IsSetOf : ℕ → List Text → List PinnedRelease → Type 0
  IsSetOf n [] [] = Unit
  IsSetOf n [] (r ∷ releases) = ⊥
  IsSetOf n (name ∷ names) [] = ⊥
  IsSetOf n (name ∷ names) (r ∷ releases) =
      ((versions : List PackageVersion) × (v : PackageVersion) × (lookup name catalog.metadata
          ≡ some versions)
        × IsChosen n (keep (is_eligible (pin_of name installed)) versions) v
        × (r ≡ release_of name v))
      × IsSetOf n names releases

  -- Every member has an eligible version of a build.
  abbrev pub Offers : ℕ → List Text → Type 0
  Offers n [] = Unit
  Offers n (name ∷ names) =
      ((versions : List PackageVersion) × (v : PackageVersion) × (lookup name catalog.metadata
          ≡ some versions)
        × Memᴰ v versions
        × (is_eligible (pin_of name installed) v ≡ true)
        × (build_number v.build ≡ n))
      × Offers n names

  choose-IsSetOf :
      (n : ℕ) (names : List Text) (ms : List (Text × List PackageVersion))
      → From names ms
      → all_have n ms ≡ true
      → (releases : List PinnedRelease) × (choose to_lower_case n ms ≡ ok releases)
        × IsSetOf n names releases
  unfolding choose pinned
  choose-IsSetOf n [] [] from h = ([], refl, tt)
  choose-IsSetOf n [] (m ∷ ms) from h = absurd from
  choose-IsSetOf n (name ∷ names) [] from h = absurd from
  choose-IsSetOf n (name ∷ names) (m ∷ ms) from h =
      let both : (has_build n m.1 ≡ true) × (all_have n ms ≡ true) = ground arith in
      let chosen = best-IsChosen n m.0 m.1 both.0 in
      let later = choose-IsSetOf n names ms from.1 both.1 in
      (
        release_of m.0 chosen.0 ∷ later.0,
        rw (chosen.1, later.1) refl,
        (
          (
            from.0.0,
            chosen.0,
            from.0.1,
            subst (λ (q : Text × List PackageVersion). IsChosen n q.1 chosen.0) from.0.2 chosen.2,
            ap (λ (q : Text × List PackageVersion). release_of q.0 chosen.0) from.0.2,
          ),
          later.2,
        ),
      )

  all_have-Offers :
      (n : ℕ) (names : List Text) (ms : List (Text × List PackageVersion))
      → From names ms
      → Offers n names
      → all_have n ms ≡ true
  all_have-Offers n [] [] from offers = refl
  all_have-Offers n [] (m ∷ ms) from offers = absurd from
  all_have-Offers n (name ∷ names) [] from offers = absurd from
  all_have-Offers n (name ∷ names) (m ∷ ms) from
        ((versions, v, found, mem, eligible, same), offers) =
      let one : has_build n m.1 ≡ true =
        subst (λ (q : Text × List PackageVersion). has_build n q.1 ≡ true) (sym from.0.2)
          (Has-has_build n (keep (is_eligible (pin_of name installed)) from.0.0) v
            (keep-Mem (is_eligible (pin_of name installed)) from.0.0 v
              (subst (Memᴰ v) (some-eq versions from.0.0 (sym found ∙ from.0.1)) mem) eligible)
            same) in
      rw (one, all_have-Offers n names ms from.1 offers) refl
    where
      some-eq : (a b : List PackageVersion) → some a ≡ some b → a ≡ b
      some-eq a b e = cc

  -- What `resolveSet` may give for some members: the releases of one build, and no build that every
  -- member has is above it; or, when they are refused, a member of no package, or no build that every
  -- member has.
  abbrev pub IsResolved : List Text → Outcome SetError (List PinnedRelease) → Type 0
  IsResolved names (ok releases) =
      (n : ℕ) × IsSetOf n names releases × ((m : ℕ) → Offers m names → m ≤ n)
  IsResolved names (err (no_package name)) = lookup name catalog.metadata ≡ none
  IsResolved names (err no_complete_set) = (n : ℕ) → Offers n names → ⊥
  IsResolved names (err no_names) = names ≡ []
  IsResolved names (err no_release) = ⊥

  common-all_have :
      (n : ℕ) (m : Text × List PackageVersion) (ms : List (Text × List PackageVersion))
      → all_have n (m ∷ ms) ≡ true
      → Memᴰ n (common (m ∷ ms))
  unfolding common
  common-all_have n m ms h =
      keep-Mem (λ k. all_have k (m ∷ ms)) (builds m.1) n (Mem-builds n m.1 one) h
    where
      one : has_build n m.1 ≡ true
      one = ground arith

  newest_set-IsResolved :
      (names : List Text) (m : Text × List PackageVersion) (ms : List (Text × List PackageVersion))
      (ns : List ℕ)
      → From names (m ∷ ms)
      → common (m ∷ ms) ≡ ns
      → IsResolved names (newest_set to_lower_case (m ∷ ms) ns)
  unfolding newest_set common
  newest_set-IsResolved names m ms [] from e = λ n offers.
      elim (subst (Memᴰ n) e
        (common-all_have n m ms (all_have-Offers n names (m ∷ ms) from offers))) [ ]
  newest_set-IsResolved names m ms (k ∷ ns) from e =
      let top = max_of-max k ns in
      let fits =
        Mem-keep (λ j. all_have j (m ∷ ms)) (builds m.1) (max_of k ns)
          (subst (Memᴰ (max_of k ns)) (sym e) top.0) in
      let chosen = choose-IsSetOf (max_of k ns) names (m ∷ ms) from fits.1 in
      rw chosen.1 (
        max_of k ns,
        chosen.2,
        λ j offers.
            All-Mem (λ i. i ≤ max_of k ns) (k ∷ ns) j top.1
              (subst (Memᴰ j) e
                (common-all_have j m ms (all_have-Offers j names (m ∷ ms) from offers))),
      )

  of_members-IsResolved :
      (names : List Text) (ms : List (Text × List PackageVersion))
      → From names ms
      → IsResolved names (of_members to_lower_case ms)
  unfolding of_members
  of_members-IsResolved [] [] from = refl
  of_members-IsResolved (name ∷ names) [] from = absurd from
  of_members-IsResolved names (m ∷ ms) from =
      newest_set-IsResolved names m ms (common (m ∷ ms)) from refl

  -- The members' versions, or the name that has no package.
  abbrev IsMembers : List Text → Outcome SetError (List (Text × List PackageVersion)) → Type 0
  IsMembers names (ok ms) = From names ms
  IsMembers names (err e) =
      (name : Text) × (e ≡ no_package name) × (lookup name catalog.metadata ≡ none)

  members-IsMembers : (names : List Text) → IsMembers names (members catalog installed names)
  unfolding members eligible_versions
  members-IsMembers [] = tt
  members-IsMembers (name ∷ names) =
      found (lookup name catalog.metadata) refl (members-IsMembers names)
    where
      found :
          (o : Option (List PackageVersion))
          → lookup name catalog.metadata ≡ o
          → IsMembers names (members catalog installed names)
          → IsMembers (name ∷ names) (
              eligible_versions installed name o
              >>= (λ member. members catalog installed names >>= (λ rest. ok (member ∷ rest))))
      found none e rest = (name, refl, e)
      found (some versions) e rest = more (members catalog installed names) rest
        where
          more :
              (o : Outcome SetError (List (Text × List PackageVersion)))
              → IsMembers names o
              → IsMembers (name ∷ names) (
                  o >>= (λ rest.
                    ok ((name, keep (is_eligible (pin_of name installed)) versions) ∷ rest)))
          more (ok ms) from = ((versions, e, refl), from)
          more (err t) why = why

-- For any members, catalog and installed releases, of which those that are members pin the set: the
-- releases that are chosen are of one build, each of them an eligible version of its member that no
-- other of that build is above, and no build of which every member has an eligible version is above it;
-- a refusal names a member that has no package, or there is no build of which every member has an
-- eligible version, or there are no members.
pub resolve_set-IsResolved :
    (to_lower_case : Text → Text) (catalog : Catalog) (names : List Text)
    (installed : List InstalledRelease)
    → IsResolved to_lower_case catalog
        (keep (λ r. includes r.name names) installed)
        names
        (resolve_set to_lower_case catalog names installed)
unfolding resolve_set
resolve_set-IsResolved to_lower_case catalog names installed =
    of_outcome (members catalog pins names) (members-IsMembers to_lower_case catalog pins names)
  where
    pins : List InstalledRelease
    pins = keep (λ r. includes r.name names) installed

    of_outcome :
        (o : Outcome SetError (List (Text × List PackageVersion)))
        → IsMembers to_lower_case catalog pins names o
        → IsResolved to_lower_case catalog pins names (o >>= of_members to_lower_case)
    of_outcome (ok ms) from = of_members-IsResolved to_lower_case catalog pins names ms from
    of_outcome (err e) why =
        subst (λ t. IsResolved to_lower_case catalog pins names (err t)) (sym why.1) why.2
