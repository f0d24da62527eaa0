-- ===== src/Relay/Connections/Counted.antt =====
-- That each descriptor is closed once.
use yurt_playground.Base.{
  ℕ, suc, ◌+◌, ◌≤◌, ◌≡◌, refl, sym, ap, ◌∙◌, inl, inr, Bool, true, false, ◌||◌, List, [], ◌∷◌, ◌++◌,
  ◌==◌, ==_iff, leb, if◌then◌else◌, length, length-append, arith, Bool-cases,
}
use yurt_playground.Relay.{max_connections}
use yurt_playground.Relay.Connections.{
  RelayState, has, remove, accept_one, accept_all, accept, end_serve, stop, started, Event, accepts,
  serve_ends, stops, happens, happen_all,
}

-- How often a descriptor is in a list.
abbrev pub count : ℕ → List ℕ → ℕ
count fd [] = 0
count fd (d ∷ fds) = if d == fd then suc (count fd fds) else count fd fds

-- The descriptors that a relay has open.
abbrev pub open_fds : RelayState → List ℕ
open_fds s = if s.stopped then [] else s.listener ∷ s.connections

-- The kernel gives a descriptor that is not open.
abbrev pub FreshEach : List ℕ → RelayState → Type 0
FreshEach [] s = Unit
FreshEach (fd ∷ fds) s =
    (has fd (s.listener ∷ s.connections) ≡ false) × FreshEach fds (accept_one fd s)

abbrev pub Fresh : Event → RelayState → Type 0
Fresh (accepts fds) s = FreshEach fds s
Fresh (serve_ends fd) s = Unit
Fresh stops s = Unit

abbrev pub FreshAll : List Event → RelayState → Type 0
FreshAll [] s = Unit
FreshAll (e ∷ events) s = Fresh e s × FreshAll events (happens e s)

-- What accept gave, of the rounds that were not too late.
abbrev pub accepted_in : Event → RelayState → List ℕ
accepted_in (accepts fds) s = if s.stopped then [] else fds
accepted_in (serve_ends fd) s = []
accepted_in stops s = []

abbrev pub accepted : List Event → RelayState → List ℕ
accepted [] s = []
accepted (e ∷ events) s = accepted_in e s ++ accepted events (happens e s)

pub record IsSound (s : RelayState) : Type 0 where
  pub few : length s.connections ≤ max_connections
  pub none_left : s.stopped ≡ true → s.connections ≡ []

count-append : (fd : ℕ) (xs ys : List ℕ) → count fd (xs ++ ys) ≡ count fd xs + count fd ys
count-append fd [] ys = omega arith
count-append fd (x ∷ xs) ys = elim (Bool-cases (x == fd)) [
  | inl e ↦ rw e (omega (arith, count-append fd xs ys))
  | inr e ↦ rw e (count-append fd xs ys)
]

count-remove :
    (fd d : ℕ) (xs : List ℕ)
    → has d xs ≡ true
    → count fd (remove d xs) + count fd (d ∷ []) ≡ count fd xs
unfolding remove
count-remove fd d [] h = cc
count-remove fd d (x ∷ xs) h = elim (Bool-cases (x == d)) [
  | inl e ↦
      let same : x ≡ d = (==_iff x d).0 e in
      elim (Bool-cases (d == fd)) [
        | inl f ↦ rw (e, same, f) (omega arith)
        | inr f ↦ rw (e, same, f) (omega arith)
      ]
  | inr e ↦
      let ih = count-remove fd d xs (rw e at h) in
      elim (Bool-cases (x == fd)) [ inl f ↦ rw (e, f) (omega (arith, ih)) | inr f ↦ rw (e, f) ih ]
]

length-remove : (d : ℕ) (xs : List ℕ) → length (remove d xs) ≤ length xs
unfolding remove
length-remove d [] = omega arith
length-remove d (x ∷ xs) = elim (Bool-cases (x == d)) [
  | inl e ↦ rw e (omega arith)
  | inr e ↦ rw e (omega (arith, length-remove d xs))
]

-- How often a descriptor is open or was closed.
total : ℕ → RelayState → ℕ
total fd s = count fd (open_fds s) + count fd s.closed

stopped-accept_one : (fd : ℕ) (s : RelayState) → (accept_one fd s).stopped ≡ s.stopped
unfolding accept_one
stopped-accept_one fd s = elim (Bool-cases (leb max_connections (length s.connections))) [
  | inl e ↦ rw e refl
  | inr e ↦ elim (Bool-cases (has fd s.connections)) [
    | inl f ↦ rw (e, f) refl
    | inr f ↦ rw (e, f) refl
  ]
]

parts_of_or : (a b : Bool) → (a || b) ≡ false → b ≡ false
parts_of_or a b h = ground arith

total-accept_one :
    (x fd : ℕ) (s : RelayState)
    → s.stopped ≡ false
    → has fd (s.listener ∷ s.connections) ≡ false
    → total x (accept_one fd s) ≡ total x s + count x (fd ∷ [])
unfolding total accept_one
total-accept_one x fd s going fresh =
    let other : has fd s.connections ≡ false =
      parts_of_or (s.listener == fd) (has fd s.connections) fresh in
    elim (Bool-cases (leb max_connections (length s.connections))) [
      | inl e ↦ rw (e, going) (omega (arith, count-append x s.closed (fd ∷ [])))
      | inr e ↦ elim (Bool-cases (s.listener == x)) [
        | inl f ↦ rw (e, other, going, f) (omega (arith, count-append x s.connections (fd ∷ [])))
        | inr f ↦ rw (e, other, going, f) (omega (arith, count-append x s.connections (fd ∷ [])))
      ]
    ]

few-accept_one :
    (fd : ℕ) (s : RelayState)
    → length s.connections ≤ max_connections
    → length (accept_one fd s).connections ≤ max_connections
unfolding accept_one
few-accept_one fd s few = elim (Bool-cases (leb max_connections (length s.connections))) [
  | inl e ↦ rw e few
  | inr e ↦ elim (Bool-cases (has fd s.connections)) [
    | inl f ↦ rw (e, f) few
    | inr f ↦ rw (e, f) (ground (arith, length-append s.connections (fd ∷ [])))
  ]
]

total-accept_all :
    (x : ℕ) (fds : List ℕ) (s : RelayState)
    → s.stopped ≡ false
    → FreshEach fds s
    → total x (accept_all fds s) ≡ total x s + count x fds
unfolding accept_all
total-accept_all x [] s going fresh = omega arith
total-accept_all x (fd ∷ fds) s going (fresh, later) =
    let first = total-accept_one x fd s going fresh in
    let rest = total-accept_all x fds (accept_one fd s) (stopped-accept_one fd s ∙ going) later in
    omega (arith, first, rest, count-append x (fd ∷ []) fds)

accept_all-IsSound :
    (fds : List ℕ) (s : RelayState) → s.stopped ≡ false → IsSound s → IsSound (accept_all fds s)
unfolding accept_all
accept_all-IsSound [] s going sound = sound
accept_all-IsSound (fd ∷ fds) s going sound =
    let still = stopped-accept_one fd s ∙ going in
    accept_all-IsSound fds (accept_one fd s) still
      (record { few = few-accept_one fd s sound.few; none_left = λ h. cc })

if_true : {A : Type 0} (b : Bool) (x y : A) → b ≡ true → (if b then x else y) ≡ x
if_true true x y e = refl
if_true false x y e = cc

if_false : {A : Type 0} (b : Bool) (x y : A) → b ≡ false → (if b then x else y) ≡ y
if_false false x y e = refl
if_false true x y e = cc

-- What holds on both sides of a test.
if_both :
    (P : RelayState → Type 0) (b : Bool) (s t : RelayState)
    → (b ≡ true → P s)
    → (b ≡ false → P t)
    → P (if b then s else t)
if_both P true s t holds fails = holds refl
if_both P false s t holds fails = fails refl

total-happens :
    (x : ℕ) (e : Event) (s : RelayState)
    → IsSound s
    → Fresh e s
    → total x (happens e s) ≡ total x s + count x (accepted_in e s)
unfolding happens accept end_serve stop total
total-happens x (accepts fds) s sound fresh = elim (Bool-cases s.stopped) [
  | inl e ↦
      ap (total x) (if_true s.stopped s (accept_all fds s) e)
      ∙ rw (if_true s.stopped [] fds e) (omega arith)
  | inr e ↦
      ap (total x) (if_false s.stopped s (accept_all fds s) e)
      ∙ total-accept_all x fds s e fresh
      ∙ ap (λ given. total x s + count x given) (sym (if_false s.stopped [] fds e))
]
total-happens x (serve_ends fd) s sound fresh = elim (Bool-cases (has fd s.connections)) [
  | inr e ↦ rw e (omega arith)
  | inl e ↦ elim (Bool-cases s.stopped) [
    | inl f ↦ let none_left = sound.none_left f in let e' = rw none_left at e in cc
    | inr f ↦
        rw (e, f)
          (ground (arith, count-append x s.closed (fd ∷ []), count-remove x fd s.connections e))
  ]
]
total-happens x stops s sound fresh = elim (Bool-cases s.stopped) [
  | inl e ↦ rw e (omega arith)
  | inr e ↦ rw e (
      ground (
        arith,
        count-append x s.closed (s.connections ++ s.listener ∷ []),
        count-append x s.connections (s.listener ∷ []),
      ))
]

happens-IsSound : (e : Event) (s : RelayState) → IsSound s → IsSound (happens e s)
unfolding happens accept end_serve stop
happens-IsSound (accepts fds) s sound =
    if_both IsSound s.stopped s (accept_all fds s) (λ e. sound)
      (λ e. accept_all-IsSound fds s e sound)
happens-IsSound (serve_ends fd) s sound =
    if_both IsSound (has fd s.connections) _ s
      (λ e. record {
        few = omega (arith, sound.few, length-remove fd s.connections);
        none_left = λ h. let none_left = sound.none_left h in let e' = rw none_left at e in cc;
      })
      (λ e. sound)
happens-IsSound stops s sound =
    if_both IsSound s.stopped s _ (λ e. sound)
      (λ e. record { few = omega arith; none_left = λ h. refl })

total-happen_all :
    (x : ℕ) (events : List Event) (s : RelayState)
    → IsSound s
    → FreshAll events s
    → total x (happen_all events s) ≡ total x s + count x (accepted events s)
unfolding happen_all
total-happen_all x [] s sound fresh = omega arith
total-happen_all x (e ∷ events) s sound (fresh, later) = omega (
  arith,
  total-happens x e s sound fresh,
  total-happen_all x events (happens e s) (happens-IsSound e s sound) later,
  count-append x (accepted_in e s) (accepted events (happens e s)),
)

happen_all-IsSound :
    (events : List Event) (s : RelayState) → IsSound s → IsSound (happen_all events s)
unfolding happen_all
happen_all-IsSound [] s sound = sound
happen_all-IsSound (e ∷ events) s sound =
    happen_all-IsSound events (happens e s) (happens-IsSound e s sound)

started-IsSound : (listener : ℕ) → IsSound (started listener)
started-IsSound listener = record { few = omega arith; none_left = λ h. refl }

-- Whatever happens to a relay, when accept gives no descriptor that is open: each descriptor, the
-- listener's and those accepted before the relay was stopped, is as often open or was as often closed as
-- it was given, so none is closed twice and none is lost; at most 16 connections are open at once; and
-- once the relay is stopped none is.
pub happen_all-IsCounted :
    (listener : ℕ) (events : List Event)
    → FreshAll events (started listener)
    → let s = happen_all events (started listener) in
      ((fd : ℕ)
        → count fd (listener ∷ accepted events (started listener))
          ≡ count fd (open_fds s) + count fd s.closed)
      × IsSound s
unfolding total
happen_all-IsCounted listener events fresh =
    let sound = started-IsSound listener in
    (
      λ fd. sym (
          total-happen_all fd events (started listener) sound fresh
          ∙ start_count fd listener (accepted events (started listener))),
      happen_all-IsSound events (started listener) sound,
    )
  where
    start_count :
        (fd listener : ℕ) (fds : List ℕ)
        → count fd (listener ∷ []) + 0 + count fd fds ≡ count fd (listener ∷ fds)
    start_count fd listener fds = ground arith
