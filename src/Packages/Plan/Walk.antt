-- ===== src/Packages/Plan/Walk.antt =====
-- The walk over the dependencies: what it has seen grows, and each package that it saw is done, its
-- dependencies seen or installed.
use yurt_playground.Base.{
  ℕ, zero, suc, ◌+◌, ◌≤◌, ◌<◌, ◌≡◌, refl, ◌⊎◌, inl, inr, true, false, List, [], ◌∷◌, ◌++◌, none,
  some, Text, if◌then◌else◌, text_eq, text_eq_iff, text_eq_refl, includes, All, arith, Bool-cases,
  Option-cases,
}
use yurt_playground.Packages.Plan.{
  PackageFile, Release, Metadata, Walked, file_of, latest_of, latest_of_file, names_of, visit_each,
  push_release, visit, count_files,
}

abbrev pub In : Text → List Text → Type 0
In x xs = includes x xs ≡ true

pub In-push : (x : Text) (xs : List Text) → In x (xs ++ x ∷ [])
In-push x [] = rw (text_eq_refl x) refl
In-push x (y ∷ ys) = elim (Bool-cases (text_eq y x)) [
  | inl e ↦ rw e refl
  | inr e ↦ rw e (In-push x ys)
]

pub In-front : (x w : Text) (xs : List Text) → In x xs → In x (xs ++ w ∷ [])
In-front x w [] h = cc
In-front x w (y ∷ ys) h = elim (Bool-cases (text_eq y x)) [
  | inl e ↦ rw e refl
  | inr e ↦ rw e (In-front x w ys (rw e at h))
]

pub In-cases : (x w : Text) (xs : List Text) → In x (xs ++ w ∷ []) → In x xs ⊎ (w ≡ x)
In-cases x w [] h = elim (Bool-cases (text_eq w x)) [
  | inl e ↦ inr ((text_eq_iff w x).0 e)
  | inr e ↦ let h' = rw e at h in cc
]
In-cases x w (y ∷ ys) h = elim (Bool-cases (text_eq y x)) [
  | inl e ↦ inl (rw e refl)
  | inr e ↦ rw e (In-cases x w ys (rw e at h))
]

-- How many files are not seen.
pub count_unseen : Metadata → List Text → ℕ
count_unseen [] seen = 0
count_unseen ((key, file) ∷ metadata) seen =
    (if includes key seen then 0 else 1) + count_unseen metadata seen

count_unseen_mono :
    (metadata : Metadata) (seen more : List Text)
    → ((x : Text) → In x seen → In x more)
    → count_unseen metadata more ≤ count_unseen metadata seen
unfolding count_unseen
count_unseen_mono [] seen more h = omega arith
count_unseen_mono ((key, file) ∷ metadata) seen more h =
    let rest = count_unseen_mono metadata seen more h in
    elim (Bool-cases (includes key more)) [
      | inl e ↦ rw e (omega (arith, rest))
      | inr e ↦ elim (Bool-cases (includes key seen)) [
        | inl f ↦ let both = h key f in cc
        | inr f ↦ rw (e, f) (omega (arith, rest))
      ]
    ]

-- A package with a file that is now seen is one fewer.
count_unseen_push :
    (metadata : Metadata) (seen : List Text) (wanted : Text) (file : PackageFile)
    → file_of wanted metadata ≡ some file
    → includes wanted seen ≡ false
    → count_unseen metadata (seen ++ wanted ∷ []) < count_unseen metadata seen
unfolding count_unseen
count_unseen_push [] seen wanted file found new = cc
count_unseen_push ((key, f) ∷ metadata) seen wanted file found new =
    elim (Bool-cases (text_eq key wanted)) [
      | inl e ↦
          let same : key ≡ wanted = (text_eq_iff key wanted).0 e in
          let fewer =
            count_unseen_mono metadata seen (seen ++ wanted ∷ []) (λ x. In-front x wanted seen) in
          rw (same, new, In-push wanted seen) (omega (arith, fewer))
      | inr e ↦
          let fewer = count_unseen_push metadata seen wanted file (rw e at found) new in
          elim (Bool-cases (includes key seen)) [
            | inl old ↦ rw (old, In-front key wanted seen old) (omega (arith, fewer))
            | inr old ↦ elim (Bool-cases (includes key (seen ++ wanted ∷ []))) [
              | inl now ↦ rw (old, now) (omega (arith, fewer))
              | inr now ↦ rw (old, now) (omega (arith, fewer))
            ]
          ]
    ]

pub count_unseen-le : (metadata : Metadata) → count_unseen metadata [] ≤ count_files metadata
unfolding count_unseen count_files
count_unseen-le [] = omega arith
count_unseen-le (entry ∷ metadata) = omega (arith, count_unseen-le metadata)

module _ (metadata : Metadata) (installed : List Text) where
  abbrev pub IsHad : List Text → Text → Type 0
  IsHad seen x = In x seen ⊎ In x installed

  -- The dependencies of its latest release are seen, or installed.
  unfoldable pub IsDone : List Text → Text → Type 0
  IsDone seen x =
      (release : Release)
      → latest_of metadata x ≡ some release
      → All (IsHad seen) (names_of release.version.depends)

  pub record Visited (names : List Text) (s s' : Walked) : Type 0 where
    pub grows : (x : Text) → In x s.seen → In x s'.seen
    pub had : All (IsHad s'.seen) names
    pub done : (x : Text) → In x s'.seen → In x s.seen ⊎ IsDone s'.seen x

  All-IsHad :
      (seen more names : List Text)
      → ((x : Text) → In x seen → In x more)
      → All (IsHad seen) names
      → All (IsHad more) names
  All-IsHad seen more [] grows h = tt
  All-IsHad seen more (n ∷ names) grows (h, hs) =
      (elim h [ inl a ↦ inl (grows n a) | inr b ↦ inr b ], All-IsHad seen more names grows hs)

  Visited-then :
      (name : Text) (names : List Text) (s s1 s2 : Walked)
      → Visited (name ∷ []) s s1
      → Visited names s1 s2
      → Visited (name ∷ names) s s2
  unfolding IsDone
  Visited-then name names s s1 s2 v w = record {
    grows = λ x h. w.grows x (v.grows x h);
    had = (elim (v.had.0) [ inl a ↦ inl (w.grows name a) | inr b ↦ inr b ], w.had);
    done = λ x h. elim (w.done x h) [
      | inl first ↦ elim (v.done x first) [
        | inl before ↦ inl before
        | inr done ↦ inr (λ release e.
            All-IsHad s1.seen s2.seen (names_of release.version.depends) w.grows (done release e))
      ]
      | inr done ↦ inr done
    ];
  }

  Visited-none : (s : Walked) → Visited [] s s
  Visited-none s = record { grows = λ x h. h; had = tt; done = λ x h. inl h }

  -- A loop of visits is what its visits are, one after another.
  visit_each-Visited :
      (depth : ℕ)
      → ((name : Text) (s : Walked)
          → count_unseen metadata s.seen < depth
          → Visited (name ∷ []) s (visit metadata installed depth name s))
      → (names : List Text) (s : Walked) → count_unseen metadata s.seen < depth
      → Visited names s (visit_each (visit metadata installed depth) names s)
  unfolding visit_each
  visit_each-Visited depth one [] s h = Visited-none s
  visit_each-Visited depth one (name ∷ names) s h =
      let s1 : Walked = visit metadata installed depth name s in
      let first : Visited (name ∷ []) s s1 = one name s h in
      let fewer = count_unseen_mono metadata s.seen s1.seen first.grows in
      Visited-then name names s s1 (visit_each (visit metadata installed depth) names s1) first
        (visit_each-Visited depth one names s1 (omega arith))

  -- The first visit of a package: it is seen, and its dependencies are visited.
  Visited-push :
      (wanted : Text) (s s2 : Walked) (release : Release) (plan : List Release)
      → latest_of metadata wanted ≡ some release
      → Visited
          (names_of release.version.depends)
          (record { seen = s.seen ++ wanted ∷ []; plan = plan })
          s2
      → Visited (wanted ∷ []) s s2
  unfolding IsDone
  Visited-push wanted s s2 release plan found v = record {
    grows = λ x h. v.grows x (In-front x wanted s.seen h);
    had = (inl (v.grows wanted (In-push wanted s.seen)), tt);
    done = λ x h. elim (v.done x h) [
      | inl first ↦ elim (In-cases x wanted s.seen first) [
        | inl before ↦ inl before
        | inr same ↦ inr (λ other e. let both : release ≡ other = cc in rw (← both) v.had)
      ]
      | inr done ↦ inr done
    ];
  }

  Visited-leaf :
      (wanted : Text) (s : Walked)
      → latest_of metadata wanted ≡ none
      → Visited (wanted ∷ []) s (record s { seen = s.seen ++ wanted ∷ [] })
  unfolding IsDone
  Visited-leaf wanted s missing = record {
    grows = λ x h. In-front x wanted s.seen h;
    had = (inl (In-push wanted s.seen), tt);
    done = λ x h. elim (In-cases x wanted s.seen h) [
      | inl before ↦ inl before
      | inr same ↦ inr (λ other e. cc)
    ];
  }

  has_file :
      (wanted : Text) (release : Release)
      → latest_of metadata wanted ≡ some release
      → (file : PackageFile) × (file_of wanted metadata ≡ some file)
  unfolding latest_of latest_of_file
  has_file wanted release e = elim (Option-cases (file_of wanted metadata)) [
    | inl missing ↦ let e' = rw missing at e in cc
    | inr found ↦ found
  ]

  pub visit-Visited :
      (depth : ℕ) (wanted : Text) (s : Walked)
      → count_unseen metadata s.seen < depth
      → Visited (wanted ∷ []) s (visit metadata installed depth wanted s)
  unfolding visit push_release
  visit-Visited zero wanted s h = absurd (omega arith)
  visit-Visited (suc depth) wanted s h = elim (Bool-cases (includes wanted s.seen)) [
    | inl seen ↦ rw seen (record { grows = λ x h. h; had = (inl seen, tt); done = λ x h. inl h })
    | inr new ↦ elim (Bool-cases (includes wanted installed)) [
      | inl has ↦
          rw (new, has) (record { grows = λ x h. h; had = (inr has, tt); done = λ x h. inl h })
      | inr absent ↦ elim (Option-cases (latest_of metadata wanted)) [
        | inl missing ↦ rw (new, absent, missing) (Visited-leaf wanted s missing)
        | inr (release, found) ↦
            let (file, has) = has_file wanted release found in
            let fewer = count_unseen_push metadata s.seen wanted file has new in
            rw (new, absent, found)
              (Visited-push wanted s _ release _ found
                (visit_each-Visited depth (visit-Visited depth) _ _ (omega arith)))
      ]
    ]
  ]
