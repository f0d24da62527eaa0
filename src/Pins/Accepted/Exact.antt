-- ===== src/Pins/Accepted/Exact.antt =====
-- Exactly which snapshots a page accepts.
use yurt_playground.Base.{
  ◌≡◌, refl, ap, ◌↔◌, inl, inr, Bool, true, false, List, [], ◌∷◌, Option, none, some, Text, Outcome,
  ok, err, ==_iff, text_eq_iff, text_eq_refl, All, Bool-cases, Option-cases, ok-injective, ℤ, pos,
  negsuc,
}
use yurt_playground.Pins.{Pins, PinError}
use yurt_playground.Pins.Value.{Json}
use yurt_playground.Pins.Snapshot.{SnapshotIdentity, BuiltFrom, SnapshotPin, parse_snapshot_pin}
use yurt_playground.Pins.Accepted.{
  snapshot_identity, snapshot_format, int_eq, format_refusal, store_refusal,
}
use yurt_playground.Pins.Accepted.Built.{
  FieldValue, missing, null, text, number, BuildFields, text_or_null, identity_fields, built_fields,
  field_at, same_value, differences, no_mismatch_or, build_mismatch, carries_store, refusal_of,
  checked_pin, verdict, accepted_snapshot,
}

-- An entry that is well formed, of this page's format, built from the pins, with a store as the page's
-- kernel has one.
pub record IsAccepted (entry : Option Json) (pins : Pins) (root_store : Option Bool)
    (p : SnapshotPin) : Type 0 where
  pub read : parse_snapshot_pin entry ≡ ok p
  pub format : p.format ≡ snapshot_format
  pub store : (has : Bool) → root_store ≡ some has → carries_store p ≡ has
  pub identity : p.built_from.identity ≡ snapshot_identity pins

int_eq_iff : (m n : ℤ) → int_eq m n ≡ true ↔ m ≡ n
unfolding int_eq
int_eq_iff (pos m) (pos n) = (λ h. ap pos ((==_iff m n).0 h), λ e. (==_iff m n).1 (pos_inj e))
  where
    pos_inj : pos m ≡ pos n → m ≡ n
    pos_inj e = cc
int_eq_iff (negsuc m) (negsuc n) =
    (λ h. ap negsuc ((==_iff m n).0 h), λ e. (==_iff m n).1 (neg_inj e))
  where
    neg_inj : negsuc m ≡ negsuc n → m ≡ n
    neg_inj e = cc
int_eq_iff (pos m) (negsuc n) = (λ h. cc, λ e. cc)
int_eq_iff (negsuc m) (pos n) = (λ h. cc, λ e. cc)

same_value_refl : (v : FieldValue) → same_value v v ≡ true
unfolding same_value
same_value_refl missing = refl
same_value_refl null = refl
same_value_refl (text s) = text_eq_refl s
same_value_refl (number z) = (int_eq_iff z z).1 refl

same_value-eq : (v w : FieldValue) → same_value v w ≡ true → v ≡ w
unfolding same_value
same_value-eq missing missing h = refl
same_value-eq null null h = refl
same_value-eq (text s) (text t) h = ap text ((text_eq_iff s t).0 h)
same_value-eq (number m) (number n) h = ap number ((int_eq_iff m n).0 h)
same_value-eq missing null h = cc
same_value-eq missing (text s) h = cc
same_value-eq missing (number n) h = cc
same_value-eq null missing h = cc
same_value-eq null (text s) h = cc
same_value-eq null (number n) h = cc
same_value-eq (text s) missing h = cc
same_value-eq (text s) null h = cc
same_value-eq (text s) (number n) h = cc
same_value-eq (number n) missing h = cc
same_value-eq (number n) null h = cc
same_value-eq (number n) (text s) h = cc

-- Every key of what is wanted is as wanted.
Agrees : BuildFields → BuildFields → Type 0
Agrees built want = All (λ (entry : Text × FieldValue). field_at entry.0 built ≡ entry.1) want

differences_nil : (built want : BuildFields) → differences built want ≡ [] ↔ Agrees built want
unfolding differences Agrees
differences_nil built [] = (λ h. tt, λ h. refl)
differences_nil built ((key, wanted) ∷ want) =
    elim (Bool-cases (same_value (field_at key built) wanted)) [
      | inl e ↦ rw e (
        λ h. (same_value-eq (field_at key built) wanted e, (differences_nil built want).0 h),
        λ all. (differences_nil built want).1 all.1,
      )
      | inr e ↦ rw e (
        λ h. cc,
        λ all.
            let bad : same_value wanted wanted ≡ false = rw all.0 at e in
            let good = same_value_refl wanted in cc,
      )
    ]

text-injective : {s t : Text} → text s ≡ text t → s ≡ t
text-injective h = cc

number-injective : {m n : ℤ} → number m ≡ number n → m ≡ n
number-injective h = cc

text_or_null-injective : (s t : Option Text) → text_or_null s ≡ text_or_null t → s ≡ t
text_or_null-injective none none h = refl
text_or_null-injective (some s) (some t) h = ap some (text-injective h)
text_or_null-injective none (some t) h = cc
text_or_null-injective (some s) none h = cc

identity_fields-Agrees :
    (b : BuiltFrom) (i : SnapshotIdentity)
    → Agrees (built_fields b) (identity_fields i) ↔ b.identity ≡ i
unfolding Agrees built_fields identity_fields field_at
identity_fields-Agrees b i = (
  λ all.
      let a = text-injective all.0 in
      let c = text-injective all.1.0 in
      let d = number-injective all.1.1.0 in
      let e = number-injective all.1.1.1.0 in
      let f = text-injective all.1.1.1.1.0 in
      let g =
        text_or_null-injective b.identity.python_seal_sha256 i.python_seal_sha256 all.1.1.1.1.1.0 in
      cc,
  λ same. rw same (refl, (refl, (refl, (refl, (refl, (refl, tt)))))),
)

no_differences : (differs : List Text) → no_mismatch_or differs ≡ none → differs ≡ []
unfolding no_mismatch_or
no_differences [] h = refl
no_differences (d ∷ differs) h = cc

build_mismatch-none :
    (b : BuiltFrom) (i : SnapshotIdentity)
    → build_mismatch (some (built_fields b)) (identity_fields i) ≡ none ↔ b.identity ≡ i
unfolding build_mismatch
build_mismatch-none b i =
    let (to, from) = differences_nil (built_fields b) (identity_fields i) in
    let (same, agree) = identity_fields-Agrees b i in
    (
      λ h. same (to (no_differences (differences (built_fields b) (identity_fields i)) h)),
      λ e. rw (from (agree e)) refl,
    )

format_refusal-none : (format : ℤ) → format_refusal format ≡ none ↔ format ≡ snapshot_format
unfolding format_refusal
format_refusal-none format = elim (Bool-cases (int_eq format snapshot_format)) [
  | inl e ↦ rw e (λ h. (int_eq_iff format snapshot_format).0 e, λ h. refl)
  | inr e ↦ rw e (λ h. cc, λ same. let yes = (int_eq_iff format snapshot_format).1 same in cc)
]

store_refusal-none :
    (has : Bool) (root_store : Option Bool)
    → store_refusal has root_store ≡ none
      ↔ ((wanted : Bool) → root_store ≡ some wanted → has ≡ wanted)
unfolding store_refusal
store_refusal-none has none = (λ h wanted e. cc, λ h. refl)
store_refusal-none true (some true) = (λ h wanted e. cc, λ h. refl)
store_refusal-none false (some false) = (λ h wanted e. cc, λ h. refl)
store_refusal-none true (some false) = (λ h wanted e. cc, λ h. let bad = h false refl in cc)
store_refusal-none false (some true) = (λ h wanted e. cc, λ h. let bad = h true refl in cc)

refusal_of-none :
    (p : SnapshotPin) (root_store : Option Bool)
    → refusal_of p root_store ≡ none
      ↔ (p.format ≡ snapshot_format)
        × ((has : Bool) → root_store ≡ some has → carries_store p ≡ has)
unfolding refusal_of
refusal_of-none p root_store =
    let (to, from) = format_refusal-none p.format in
    let (fits, fitting) = store_refusal-none (carries_store p) root_store in
    elim (Option-cases (format_refusal p.format)) [
      | inl e ↦ rw e (λ h. (to e, fits h), λ all. fitting all.1)
      | inr (why, e) ↦ rw e (λ h. cc, λ all. let no = from all.0 in cc)
    ]

verdict-ok :
    (what : Text) (pin p : SnapshotPin) (refused why : Option Text)
    → verdict what pin refused why ≡ ok p ↔ (pin ≡ p) × (refused ≡ none) × (why ≡ none)
unfolding verdict
verdict-ok what pin p (some refused) why = (λ h. cc, λ all. let no = all.1 in cc)
verdict-ok what pin p none (some why) = (λ h. cc, λ all. let no = all.2 in cc)
verdict-ok what pin p none none = (λ h. (ok-injective h, refl, refl), λ all. ap ok all.0)

checked_pin-ok :
    (pins : Pins) (what : Text) (root_store : Option Bool) (pin : Outcome PinError SnapshotPin)
    (p : SnapshotPin)
    → checked_pin pins what root_store pin ≡ ok p
      ↔ (pin ≡ ok p)
        × (p.format ≡ snapshot_format)
        × ((has : Bool) → root_store ≡ some has → carries_store p ≡ has)
        × (p.built_from.identity ≡ snapshot_identity pins)
unfolding checked_pin
checked_pin-ok pins what root_store (err message) p = (λ h. cc, λ all. let no = all.0 in cc)
checked_pin-ok pins what root_store (ok pin) p =
    let why =
      build_mismatch (some (built_fields pin.built_from))
        (identity_fields (snapshot_identity pins)) in
    let (to, from) = verdict-ok what pin p (refusal_of pin root_store) why in
    let (same, differ) = build_mismatch-none pin.built_from (snapshot_identity pins) in
    let (fits, fitting) = refusal_of-none pin root_store in
    (
      λ h.
          let (eq, accepted, built) = to h in
          let (format, store) = fits accepted in rw (← eq) (refl, format, store, same built),
      λ all.
          let eq : pin ≡ p = ok-injective all.0 in
          let (read, format, store, identity) = all in
          from (eq, fitting (rw eq (format, store)), differ (rw eq identity)),
    )

-- A page accepts an entry, and restores its snapshot, exactly when the entry is well formed, is of the
-- format that the page reads, was built from the page's own pins (the kernel, its revision, the seal's
-- version, the boot setup, the image and the sealable Python, each the same), and carries a store as the
-- page's kernel has one, where that is known.
pub accepted_snapshot-IsAccepted :
    (entry : Option Json) (pins : Pins) (what : Text) (root_store : Option Bool) (p : SnapshotPin)
    → accepted_snapshot entry pins what root_store ≡ ok p ↔ IsAccepted entry pins root_store p
unfolding accepted_snapshot
accepted_snapshot-IsAccepted entry pins what root_store p =
    let (to, from) = checked_pin-ok pins what root_store (parse_snapshot_pin entry) p in
    (
      λ h.
          let (read, format, store, identity) = to h in
          record { read = read; format = format; store = store; identity = identity },
      λ a. from (a.read, a.format, a.store, a.identity),
    )
