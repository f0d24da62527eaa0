-- ===== src/Agent/Prompt.antt =====
-- A prompt is never longer than its limit.
use yurt_playground.Base.{
  ℕ, suc, ◌+◌, ◌-◌, ◌^◌, ◌≤◌, ◌<◌, ◌≡◌, refl, ap, List, [], ◌∷◌, Text, chars, decimal,
  length-decimal-le, length-decimal_mono, All, arith, ltb, leb, length, length-append, take,
  length-take, inl, inr, Bool-cases,
}
use yurt_playground.Agent.{
  Turn, clip, suffix, clip_suffix_max, rendered, note, latest_first, clipped, fit, join_rest,
  prompt_of, task_head, build_prompt,
}

-- The suffix of a clipped text is 40 long at most, for a text shorter than 10 ^ 19.
length-suffix : (n : ℕ) → n < 10 ^ 19 → length (suffix n) ≤ clip_suffix_max
length-suffix n h =
    omega (arith, length-append (decimal n) (chars " more characters]"), length-decimal-le 18 n h)

length-clip :
    (text : Text) (max : ℕ)
    → length text < 10 ^ 19
    → length (clip text max).0 ≤ max + clip_suffix_max
unfolding clip
length-clip text max h = ground (
  arith,
  length-append (take max text) (suffix (length text - max)),
  length-take max text,
  length-suffix (length text - max),
)

-- What parts take, each with the empty line before it.
abbrev pub weight : List Text → ℕ
weight [] = 0
weight (part ∷ parts) = length part + 2 + weight parts

abbrev pub IsShort : Text → Type 0
IsShort r = length r < 10 ^ 19

clipped-weight :
    (kept : List Text) (budget : ℕ) (r : Text)
    → IsShort r
    → weight (clipped kept budget r) ≤ weight kept + budget
unfolding clipped
clipped-weight [] budget r h = ground (arith, length-clip r (budget - 2 - clip_suffix_max))
clipped-weight (k ∷ kept) budget r h = omega arith

fit-weight :
    (kept : List Text) (budget : ℕ) (rs : List Text)
    → All IsShort rs
    → weight (fit kept budget rs) ≤ weight kept + budget
unfolding fit
fit-weight kept budget [] h = omega arith
fit-weight kept budget (r ∷ older) (short, h) = elim (Bool-cases (leb (length r + 2) budget)) [
  | inl fits ↦ rw fits (ground (arith, fit-weight (r ∷ kept) (budget - (length r + 2)) older h))
  | inr long ↦ rw long (clipped-weight kept budget r short)
]

length-join_rest : (parts : List Text) → length (join_rest parts) ≡ weight parts
unfolding join_rest
length-join_rest [] = refl
length-join_rest (part ∷ parts) =
    omega (arith, length-append part (join_rest parts), length-join_rest parts)

length-note_mono : (m n : ℕ) → m ≤ n → length (note m) ≤ length (note n)
unfolding note
length-note_mono m n h = omega (
  arith,
  length-append (decimal m) (chars " are omitted to fit the context.)"),
  length-append (decimal n) (chars " are omitted to fit the context.)"),
  length-decimal_mono m n h,
)

length-prompt_of :
    (head : Text) (steps : ℕ) (kept : List Text)
    → length (prompt_of head steps kept) ≤ length head + (length (note steps) + 2) + weight kept
unfolding prompt_of
length-prompt_of head steps kept = elim (Bool-cases (ltb 0 (steps - length kept))) [
  | inl some_omitted ↦ rw some_omitted (
      omega (
        arith,
        length-append head (join_rest (note (steps - length kept) ∷ kept)),
        length-join_rest (note (steps - length kept) ∷ kept),
        length-note_mono (steps - length kept) steps (omega arith),
      ))
  | inr all_kept ↦
      rw all_kept (omega (arith, length-append head (join_rest kept), length-join_rest kept))
]

length-rendered : (n : ℕ) (turns : List Turn) → length (rendered n turns) ≡ length turns
unfolding rendered
length-rendered n [] = refl
length-rendered n (turn ∷ turns) = ap suc (length-rendered (suc n) turns)

latest_first-All :
    (seen rs : List Text) → All IsShort seen → All IsShort rs → All IsShort (latest_first seen rs)
unfolding latest_first
latest_first-All seen [] a b = a
latest_first-All seen (r ∷ rs) a (short, b) = latest_first-All (r ∷ seen) rs (short, a) b

-- Whatever the turns, each rendered in fewer than 10 ^ 19 characters: when the task and a note that
-- every step is omitted fit the limit, the prompt is no longer than the limit.
pub length-build_prompt :
    (task : Text) (turns : List Turn) (max_prompt : ℕ)
    → All IsShort (rendered 1 turns)
    → length (task_head task) + (length (note (length turns)) + 2) ≤ max_prompt
    → length (build_prompt task turns max_prompt) ≤ max_prompt
unfolding build_prompt
length-build_prompt task turns max_prompt short fits =
    within (length (rendered 1 turns)) (length-rendered 1 turns)
  where
    budget : ℕ
    budget = max_prompt - length (task_head task) - (length (note (length turns)) + 2)

    kept : List Text
    kept = fit [] budget (latest_first [] (rendered 1 turns))

    within :
        (steps : ℕ)
        → steps ≡ length turns
        → length (prompt_of (task_head task) steps kept) ≤ max_prompt
    within steps e = omega (
      arith,
      fits,
      length-prompt_of (task_head task) steps kept,
      ap (λ n. length (note n)) e,
      fit-weight [] budget (latest_first [] (rendered 1 turns))
          (latest_first-All [] (rendered 1 turns) tt short),
    )
