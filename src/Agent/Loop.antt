-- ===== src/Agent/Loop.antt =====
-- src/agent.ts: runAgent, the events that it reports. What the model and the tools give in each step,
-- and whether the signal is aborted where the code looks, is a function of the step. The events' times
-- and statistics are left out, and so is what an action's JSON reads as: `parse_action` is any function.
pub mod Ends
use yurt_playground.Base.{
  ℕ, zero, suc, ◌+◌, ◌-◌, ◌≤◌, ◌<◌, ◌≡◌, refl, Bool, true, false, List, [], ◌∷◌, ◌++◌, Option, none,
  some, Text, chars, Outcome, ok, err, decimal, ltb, leb, if◌then◌else◌, length, take, All, arith,
}
use yurt_playground.Agent.{Turn, clip, build_prompt}

pub data Action : Type 0 where
  exec_action read_file_action answer_action : Text → Action

pub data StopReason : Type 0 where
  task steps invalid cancelled timeout : StopReason

pub data AgentEvent : Type 0 where
  step_event : ℕ → ℕ → AgentEvent
  invalid_event : ℕ → Text → AgentEvent
  action_event : ℕ → Action → Text → AgentEvent
  observation_event : ℕ → Text → Bool → AgentEvent
  answer_event : Text → AgentEvent
  stopped_event : StopReason → AgentEvent
  error_event : Text → AgentEvent

pub record Limits : Type 0 where
  pub max_steps : ℕ
  pub max_invalid : ℕ
  pub max_task : ℕ
  pub max_prompt : ℕ
  pub max_observation : ℕ

pub record ExecResult : Type 0 where
  pub code : Option ℕ
  pub stdout : Text
  pub stderr : Text

-- A step's world: what the model and the tools give or throw, and the signal after each.
pub record Round : Type 0 where
  pub aborted_before : Bool
  pub reply : Outcome Text Text
  pub aborted_after_reply : Bool
  pub exec : Text → Outcome Text ExecResult
  pub read_file : Text → Outcome Text Text
  pub aborted_after_tool : Bool
  pub cancel_aborted : Bool

stopped : Round → AgentEvent
stopped round = stopped_event (if round.cancel_aborted then cancelled else timeout)

code_text : Option ℕ → Text
code_text none = chars "none"
code_text (some n) = decimal n

exec_raw : ExecResult → Text
unfolding code_text
exec_raw r = chars "exit " ++ (code_text r.code ++ (10 ∷ (r.stdout ++ r.stderr)))

-- A tool's error is an observation too.
raw_of : Outcome Text Text → Text
raw_of (ok raw) = raw
raw_of (err message) = chars "error: " ++ message

exec_text : Outcome Text ExecResult → Outcome Text Text
unfolding exec_raw
exec_text (ok r) = ok (exec_raw r)
exec_text (err message) = err message

module _ (parse_action : Text → Option Action) (quote_text : Text → Text)
    (quote_action : Action → Text) (limits : Limits) (rounds : ℕ → Round) where
  observed :
      (List Turn → ℕ → List AgentEvent) → ℕ → Round → List Turn → Action → Text → List AgentEvent
  unfolding stopped
  observed next step round turns action raw =
      if round.aborted_after_tool
      then stopped round ∷ []
      else (let result = clip raw limits.max_observation in
          observation_event step result.0 result.1
          ∷ next (turns ++ record { reply = quote_action action; result = result.0 } ∷ []) 0)

  acted : (List Turn → ℕ → List AgentEvent) → ℕ → Round → List Turn → Action → List AgentEvent
  unfolding observed raw_of exec_text
  acted next step round turns (answer_action text) = answer_event text ∷ []
  acted next step round turns (exec_action cmd) =
      observed next step round turns (exec_action cmd) (raw_of (exec_text (round.exec cmd)))
  acted next step round turns (read_file_action path) =
      observed next step round turns (read_file_action path) (raw_of (round.read_file path))

  invalid_turn : Text → Turn
  invalid_turn text = record {
    reply = quote_text (take 200 text);
    result = chars "That is not one of the three JSON actions. Reply with exactly one.";
  }

  parsed :
      (List Turn → ℕ → List AgentEvent)
      → ℕ
      → Round
      → List Turn
      → ℕ
      → Text
      → Option Action
      → List AgentEvent
  unfolding acted invalid_turn
  parsed next step round turns bad text (some action) =
      action_event step action text ∷ acted next step round turns action
  parsed next step round turns bad text none =
      let more = next (turns ++ invalid_turn text ∷ []) (bad + 1) in
      invalid_event step text
      ∷ (if ltb limits.max_invalid (bad + 1) then stopped_event invalid ∷ [] else more)

  replied :
      (List Turn → ℕ → List AgentEvent)
      → ℕ
      → Round
      → List Turn
      → ℕ
      → Outcome Text Text
      → List AgentEvent
  unfolding parsed stopped
  replied next step round turns bad (err message) =
      if round.aborted_after_reply then stopped round ∷ [] else error_event message ∷ []
  replied next step round turns bad (ok text) =
      if round.aborted_after_reply
      then stopped round ∷ []
      else parsed next step round turns bad text (parse_action text)

  -- `left` steps are left, from `step` on.
  run_steps : Text → ℕ → ℕ → List Turn → ℕ → List AgentEvent
  unfolding replied stopped
  run_steps wanted zero step turns bad = stopped_event steps ∷ []
  run_steps wanted (suc left) step turns bad =
      let later =
        replied (run_steps wanted left (suc step)) step (rounds step) turns bad
          (rounds step).reply in
      if (rounds step).aborted_before
      then stopped (rounds step) ∷ []
      else step_event step (length (build_prompt wanted turns limits.max_prompt)) ∷ later

  unfoldable pub run_agent : Text → List AgentEvent
  unfolding run_steps
  run_agent wanted =
      if ltb limits.max_task (length wanted)
      then stopped_event task ∷ []
      else run_steps wanted limits.max_steps 1 [] 0
