-- ===== src/Agent/Loop/Ends.antt =====
-- A run of the agent ends, once, and within its steps.
use yurt_playground.Base.{
  ℕ, zero, suc, ◌+◌, ◌≤◌, ◌≡◌, refl, List, [], ◌∷◌, Option, none, some, Text, Outcome, ok, err, ltb,
  inl, inr, Bool-cases, arith, length,
}
use yurt_playground.Agent.{Turn}
use yurt_playground.Agent.Loop.{
  Action, exec_action, read_file_action, answer_action, AgentEvent, step_event, invalid_event,
  action_event, observation_event, answer_event, stopped_event, error_event, Limits, Round,
  observed, acted, parsed, replied, run_steps, run_agent, stopped, raw_of, exec_text,
}

-- The last event is final and no other is; the steps are numbered from `first` on, without a gap, up
-- to `last` at most; every other event says the step that it belongs to.
abbrev pub Ends : ℕ → ℕ → List AgentEvent → Type 0
Ends first last [] = ⊥
Ends first last (step_event step n ∷ events) =
    (step ≡ first) × (step ≤ last) × Ends (suc first) last events
Ends first last (answer_event text ∷ events) = events ≡ []
Ends first last (stopped_event reason ∷ events) = events ≡ []
Ends first last (error_event message ∷ events) = events ≡ []
Ends first last (invalid_event step text ∷ events) = (suc step ≡ first) × Ends first last events
Ends first last (action_event step action text ∷ events) =
    (suc step ≡ first) × Ends first last events
Ends first last (observation_event step text truncated ∷ events) =
    (suc step ≡ first) × Ends first last events

module _ (parse_action : Text → Option Action) (quote_text : Text → Text)
    (quote_action : Action → Text) (limits : Limits) (rounds : ℕ → Round) (last : ℕ) where
  abbrev NextEnds : ℕ → (List Turn → ℕ → List AgentEvent) → Type 0
  NextEnds step next = (turns : List Turn) (bad : ℕ) → Ends (suc step) last (next turns bad)

  observed-Ends :
      (next : List Turn → ℕ → List AgentEvent) (step : ℕ) (round : Round) (turns : List Turn)
      (action : Action) (raw : Text)
      → NextEnds step next
      → Ends (suc step) last (
          observed parse_action quote_text quote_action limits rounds next step round turns action
            raw)
  unfolding observed stopped
  observed-Ends next step round turns action raw more = elim (Bool-cases round.aborted_after_tool) [
    | inl a ↦ rw a refl
    | inr b ↦ rw b (refl, more _ 0)
  ]

  acted-Ends :
      (next : List Turn → ℕ → List AgentEvent) (step : ℕ) (round : Round) (turns : List Turn)
      (action : Action)
      → NextEnds step next
      → Ends
          (suc step)
          last
          (acted parse_action quote_text quote_action limits rounds next step round turns action)
  unfolding acted
  acted-Ends next step round turns (answer_action text) more = refl
  acted-Ends next step round turns (exec_action cmd) more =
      observed-Ends next step round turns (exec_action cmd) (raw_of (exec_text (round.exec cmd)))
        more
  acted-Ends next step round turns (read_file_action path) more =
      observed-Ends next step round turns (read_file_action path) (raw_of (round.read_file path))
        more

  parsed-Ends :
      (next : List Turn → ℕ → List AgentEvent) (step : ℕ) (round : Round) (turns : List Turn)
      (bad : ℕ) (text : Text) (action : Option Action)
      → NextEnds step next
      → Ends (suc step) last (
          parsed parse_action quote_text quote_action limits rounds next step round turns bad text
            action)
  unfolding parsed
  parsed-Ends next step round turns bad text (some action) more =
      (refl, acted-Ends next step round turns action more)
  parsed-Ends next step round turns bad text none more = (
    refl,
    elim (Bool-cases (ltb limits.max_invalid (bad + 1))) [
      | inl a ↦ rw a refl
      | inr b ↦ rw b (more _ (bad + 1))
    ],
  )

  replied-Ends :
      (next : List Turn → ℕ → List AgentEvent) (step : ℕ) (round : Round) (turns : List Turn)
      (bad : ℕ) (reply : Outcome Text Text)
      → NextEnds step next
      → Ends (suc step) last (
          replied parse_action quote_text quote_action limits rounds next step round turns bad
            reply)
  unfolding replied stopped
  replied-Ends next step round turns bad (err message) more =
      elim (Bool-cases round.aborted_after_reply) [ inl a ↦ rw a refl | inr b ↦ rw b refl ]
  replied-Ends next step round turns bad (ok text) more =
      elim (Bool-cases round.aborted_after_reply) [
        | inl a ↦ rw a refl
        | inr b ↦ rw b (parsed-Ends next step round turns bad text (parse_action text) more)
      ]

  run_steps-Ends :
      (wanted : Text) (left step : ℕ) (turns : List Turn) (bad : ℕ)
      → left + step ≡ suc last
      → Ends step last
          (run_steps parse_action quote_text quote_action limits rounds wanted left step turns bad)
  unfolding run_steps stopped
  run_steps-Ends wanted zero step turns bad e = refl
  run_steps-Ends wanted (suc left) step turns bad e =
      elim (Bool-cases (rounds step).aborted_before) [
        | inl a ↦ rw a refl
        | inr b ↦ rw b (
          refl,
          omega arith,
          replied-Ends
              (run_steps parse_action quote_text quote_action limits rounds wanted left (suc step))
              step (rounds step) turns bad (rounds step).reply
              (λ more_turns more_bad.
                run_steps-Ends wanted left (suc step) more_turns more_bad (omega arith)),
        )
      ]

-- Whatever the model, the tools and the signal do in each step: a run of the agent reports one final
-- event, an answer, a stop or an error, and nothing after it; its steps are numbered from 1 on without a
-- gap, up to the limit at most, and every other event says the step that it belongs to.
pub run_agent-Ends :
    (parse_action : Text → Option Action) (quote_text : Text → Text) (quote_action : Action → Text)
    (limits : Limits) (rounds : ℕ → Round) (wanted : Text)
    → Ends 1 limits.max_steps (run_agent parse_action quote_text quote_action limits rounds wanted)
unfolding run_agent
run_agent-Ends parse_action quote_text quote_action limits rounds wanted =
    elim (Bool-cases (ltb limits.max_task (length wanted))) [
      | inl a ↦ rw a refl
      | inr b ↦ rw b (
          run_steps-Ends parse_action quote_text quote_action limits rounds limits.max_steps wanted
            limits.max_steps 1 [] 0 (omega arith))
    ]
