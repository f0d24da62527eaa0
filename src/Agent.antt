-- ===== src/Agent.antt =====
-- src/agent.ts: the prompt of the agent's next step, buildPrompt and clip.
pub mod Prompt
pub mod Loop
mod Tests
use yurt_playground.Base.{
  ℕ, zero, suc, ◌+◌, ◌-◌, ◌*◌, Bool, true, false, List, [], ◌∷◌, ◌++◌, Text, chars, decimal, ltb,
  leb, if◌then◌else◌, length, take,
}

pub record Turn : Type 0 where
  pub reply : Text
  pub result : Text

-- A new line, and the mark of what is left out.
abbrev suffix : ℕ → Text
suffix n = 10 ∷ 91 ∷ 8230 ∷ 32 ∷ (decimal n ++ chars " more characters]")

unfoldable pub clip : Text → ℕ → Text × Bool
clip text max =
    if leb (length text) max
    then (text, false)
    else (take max text ++ suffix (length text - max), true)

abbrev pub clip_suffix_max : ℕ
clip_suffix_max = 40

unfoldable pub render : ℕ → Turn → Text
render n turn =
    chars "Step "
    ++ (decimal n
        ++ (chars ": you replied "
            ++ (turn.reply ++ ((10 ∷ chars "Result:") ++ (10 ∷ turn.result)))))

-- From the step's number on.
unfoldable pub rendered : ℕ → List Turn → List Text
rendered n [] = []
rendered n (turn ∷ turns) = render n turn ∷ rendered (suc n) turns

unfoldable pub note : ℕ → Text
note n = chars "(Steps 1-" ++ (decimal n ++ chars " are omitted to fit the context.)")

unfoldable pub latest_first : List Text → List Text → List Text
latest_first seen [] = seen
latest_first seen (r ∷ rest) = latest_first (r ∷ seen) rest

-- The budget may be below 0 in the source, where nothing fits, as in one of 0.
clipped : List Text → ℕ → Text → List Text
clipped [] budget r =
    if ltb 0 (budget - 2 - clip_suffix_max)
    then (clip r (budget - 2 - clip_suffix_max)).0 ∷ []
    else []
clipped (k ∷ kept) budget r = k ∷ kept

-- The latest turns that fit, in order.
unfoldable pub fit : List Text → ℕ → List Text → List Text
unfolding clipped
fit kept budget [] = kept
fit kept budget (r ∷ older) =
    let more = fit (r ∷ kept) (budget - (length r + 2)) older in
    if leb (length r + 2) budget then more else clipped kept budget r

-- The parts after the first, each after an empty line.
unfoldable pub join_rest : List Text → Text
join_rest [] = []
join_rest (part ∷ parts) = 10 ∷ 10 ∷ (part ++ join_rest parts)

abbrev omitted_note : ℕ → List Text
omitted_note omitted = if ltb 0 omitted then note omitted ∷ [] else []

unfoldable pub prompt_of : Text → ℕ → List Text → Text
prompt_of head steps kept = head ++ join_rest (omitted_note (steps - length kept) ++ kept)

abbrev pub task_head : Text → Text
task_head task = chars "Task: " ++ task

unfoldable pub build_prompt : Text → List Turn → ℕ → Text
build_prompt task turns max_prompt =
    let steps = rendered 1 turns in
    let budget = max_prompt - length (task_head task) - (length (note (length turns)) + 2) in
    prompt_of (task_head task) (length steps) (fit [] budget (latest_first [] steps))
