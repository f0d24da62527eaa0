-- ===== src/StoreLog/Names.antt =====
-- src/store_log.ts, isStoreFileName: a store file's name is ASCII, and short.
use yurt_playground.Base.{
  ◌≤◌, ◌<◌, ◌≡◌, sym, subst, true, false, [], ◌∷◌, Text, All, All-append, length, drop, arith,
  starts_with, starts_with-append, text_eq, text_eq_iff, inl, inr, Bool-cases,
}
use yurt_playground.StoreLog.{
  is_store_file_name, is_ino, all_digits, content_prefix, journal_a, journal_b, meta,
}

abbrev pub IsAscii : Text → Type 0
IsAscii s = All (λ c. c < 128) s

all_digits-IsAscii : (s : Text) → all_digits s ≡ true → IsAscii s
unfolding all_digits
all_digits-IsAscii [] h = tt
all_digits-IsAscii (c ∷ s) h = ground (arith, all_digits-IsAscii s)

is_ino-IsAscii : (s : Text) → is_ino s ≡ true → IsAscii s × (length s ≤ 20)
unfolding is_ino
is_ino-IsAscii [] h = cc
is_ino-IsAscii (c ∷ s) h = ground (arith, all_digits-IsAscii s)

content-IsAscii :
    (name : Text)
    → starts_with name content_prefix ≡ true
    → is_ino (drop 8 name) ≡ true
    → IsAscii name × (length name ≤ 28)
content-IsAscii name starts ino =
    subst (λ s. IsAscii s × (length s ≤ 28)) (starts_with-append name content_prefix starts)
      (
        All-append (λ c. c < 128) content_prefix (drop 8 name) (ground arith)
            (is_ino-IsAscii (drop 8 name) ino).0,
        omega (arith, (is_ino-IsAscii (drop 8 name) ino).1),
      )

pub is_store_file_name-IsAscii :
    (name : Text) → is_store_file_name name ≡ true → IsAscii name × (length name ≤ 28)
unfolding is_store_file_name
is_store_file_name-IsAscii name h = elim (Bool-cases (text_eq name journal_a)) [
  | inl a ↦ subst Named (sym ((text_eq_iff name journal_a).0 a)) (ground arith)
  | inr g ↦ elim (Bool-cases (text_eq name journal_b)) [
    | inl b ↦ subst Named (sym ((text_eq_iff name journal_b).0 b)) (ground arith)
    | inr k ↦ elim (Bool-cases (text_eq name meta)) [
      | inl m ↦ subst Named (sym ((text_eq_iff name meta).0 m)) (ground arith)
      | inr content ↦ content-IsAscii name (others g k content).0 (others g k content).1
    ]
  ]
]
  where
    Named : Text → Type 0
    Named s = IsAscii s × (length s ≤ 28)

    others :
        text_eq name journal_a ≡ false
        → text_eq name journal_b ≡ false
        → text_eq name meta ≡ false
        → (starts_with name content_prefix ≡ true) × (is_ino (drop 8 name) ≡ true)
    others a b m = ground arith
