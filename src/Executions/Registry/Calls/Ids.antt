-- ===== src/Executions/Registry/Calls/Ids.antt =====
-- The ids of executions are never given twice.
use yurt_playground.Base.{
  ℕ, ◌+◌, ◌<◌, ◌≡◌, refl, sym, ap, ◌∙◌, Bool, List, [], ◌∷◌, none, some, Text, err, arith, All,
  All-append, text_eq, text_eq_iff, Bool-cases, Option-cases, Outcome-cases, inl, inr, get_elem?,
  drop, decimal, decimal-injective,
}
use yurt_playground.Executions.Line.{ExecOptions}
use yurt_playground.Executions.Registry.{is_exited, Execution, Registry, execution_id, Result}
use yurt_playground.Executions.Registry.Loop.{
  kill, happen, Happening, wakes, exits, kill_settles, kill_returns, kill_fails, peek_answers,
  peek_fails, leaves, take_output, finish, failed,
}
use yurt_playground.Executions.Registry.Calls.Active.{get_cases}
use yurt_playground.Executions.Registry.Calls.{
  no_execution, after_kill, unexpired, expire, is_expired, find_execution, get, delete, update,
  list, spawn, spawn_failed, new_execution, spawn_answered, happens, kill_call, wait, wait_raw,
  released, outcome, settle_raw, raw_outcome,
}
use yurt_playground.Executions.Registry.Calls.Steps.{
  Event, lists, spawns, answers, fails, happening, kills, waits, waits_raw, empty, step, run,
}

-- An id given before the counter reached `next`.
abbrev pub IsOld : ℕ → Execution → Type 0
IsOld next e = (n : ℕ) × (pid : ℕ) × (n < next) × (e.id ≡ execution_id n pid)

execution_id-injective : (m n p q : ℕ) → execution_id m p ≡ execution_id n q → m ≡ n
unfolding execution_id
execution_id-injective m n p q e =
    decimal-injective m n 45 (decimal p) (decimal q) refl (ap (drop 1) e)

find-fresh :
    (next pid : ℕ) (es : List Execution)
    → All (IsOld next) es
    → find_execution (execution_id next pid) es ≡ none
unfolding find_execution
find-fresh next pid [] h = refl
find-fresh next pid (e ∷ es) ((n, p, l, same), h) =
    elim (Bool-cases (text_eq e.id (execution_id next pid))) [
      | inl hit ↦
          let q = execution_id-injective n next p pid (sym same ∙ (text_eq_iff _ _).0 hit) in
          absurd (omega arith)
      | inr miss ↦ rw miss (find-fresh next pid es h)
    ]

IsOld-suc : (next : ℕ) (es : List Execution) → All (IsOld next) es → All (IsOld (next + 1)) es
IsOld-suc next [] h = tt
IsOld-suc next (e ∷ es) ((n, p, l, same), h) = ((n, p, omega arith, same), IsOld-suc next es h)

All-unexpired :
    (now next : ℕ) (es : List Execution) → All (IsOld next) es → All (IsOld next) (unexpired now es)
unfolding unexpired
All-unexpired now next [] h = tt
All-unexpired now next (e ∷ es) h = elim (Bool-cases (is_expired now e)) [
  | inl gone ↦ rw gone (All-unexpired now next es h.1)
  | inr here ↦ rw here (h.0, All-unexpired now next es h.1)
]

All-delete :
    (id : Text) (next : ℕ) (es : List Execution)
    → All (IsOld next) es
    → All (IsOld next) (delete id es)
unfolding delete
All-delete id next [] h = tt
All-delete id next (e ∷ es) h = elim (Bool-cases (text_eq e.id id)) [
  | inl gone ↦ rw gone (All-delete id next es h.1)
  | inr here ↦ rw here (h.0, All-delete id next es h.1)
]

All-update :
    (id : Text) (f : Execution → Execution) (next : ℕ) (es : List Execution)
    → ((e : Execution) → (f e).id ≡ e.id)
    → All (IsOld next) es
    → All (IsOld next) (update id f es)
unfolding update
All-update id f next [] k h = tt
All-update id f next (e ∷ es) k ((n, p, l, same), h) = elim (Bool-cases (text_eq e.id id)) [
  | inl here ↦ rw here ((n, p, l, k e ∙ same), All-update id f next es k h)
  | inr other ↦ rw other ((n, p, l, same), All-update id f next es k h)
]

-- Every execution was given its id before the counter's present value.
abbrev pub IsNumbered : Registry → Type 0
IsNumbered r = All (IsOld r.next) r.executions

released-IsNumbered :
    (id : Text) (result : Result) (e : Execution) (r : Registry)
    → IsNumbered r
    → IsNumbered (released id result e r)
unfolding released
released-IsNumbered id result e r v = elim (Bool-cases (is_exited e.state)) [
  | inl gone ↦ rw (gone, released) (All-delete id r.next r.executions v)
  | inr here ↦ rw (here, released) (All-update id _ r.next r.executions (λ x. refl) v)
]

wait-IsNumbered : (id : Text) (r : Registry) → IsNumbered r → IsNumbered (wait id r).0
unfolding wait
wait-IsNumbered id r v = elim (get_cases id r) [
  | inl missing ↦ rw (missing, wait) v
  | inr (e, found) ↦ elim (Option-cases (outcome e)) [
    | inl pending ↦ rw (found, wait, pending) v
    | inr (x, settled) ↦ rw (found, wait, settled) (released-IsNumbered id x e r v)
  ]
]

settle_raw-IsNumbered :
    (late_seen : Bool) (id : Text) (e : Execution) (r : Registry)
    → IsNumbered r
    → IsNumbered (settle_raw late_seen id e r).0
unfolding settle_raw
settle_raw-IsNumbered late_seen id e r v = elim (Option-cases (raw_outcome late_seen e)) [
  | inl pending ↦ rw (settle_raw, pending) v
  | inr (x, settled) ↦ rw (settle_raw, settled) (released-IsNumbered id x e r v)
]

wait_raw-IsNumbered :
    (late_seen : Bool) (id : Text) (r : Registry)
    → IsNumbered r
    → IsNumbered (wait_raw late_seen id r).0
unfolding wait_raw
wait_raw-IsNumbered late_seen id r v = elim (get_cases id r) [
  | inl missing ↦ rw (missing, wait_raw) v
  | inr (e, found) ↦ rw (found, wait_raw) (settle_raw-IsNumbered late_seen id e r v)
]

module _ (to_upper_case : Text → Text) (decode : List ℕ → Text) where
  happen-id :
      (now : ℕ) (h : Happening) (e : Execution) → (happen to_upper_case decode now h e).id ≡ e.id
  unfolding happen finish kill failed take_output
  happen-id now (wakes out errs) e = ground arith
  happen-id now (leaves out errs) e = ground arith
  happen-id now (exits s) e = ground arith
  happen-id now kill_settles e = ground arith
  happen-id now kill_returns e = ground arith
  happen-id now (kill_fails m) e = ground arith
  happen-id now (peek_answers none) e = ground arith
  happen-id now (peek_answers (some p)) e = ground arith
  happen-id now (peek_fails m) e = ground arith

  after_kill-id :
      (signal : Text) (now : ℕ) (e : Execution) → (after_kill to_upper_case signal now e).id ≡ e.id
  unfolding after_kill kill
  after_kill-id signal now e = ground arith

  kill_call-IsNumbered :
      (id signal : Text) (now : ℕ) (r : Registry)
      → IsNumbered r
      → IsNumbered (kill_call to_upper_case id signal now r).0
  unfolding kill_call
  kill_call-IsNumbered id signal now r v = elim (get_cases id r) [
    | inl missing ↦ rw (missing, kill_call) v
    | inr (e, found) ↦ elim (Outcome-cases (kill to_upper_case signal now e)) [
      | inl (x, refused) ↦ rw (found, kill_call, refused) v
      | inr ((f, sent), killed) ↦
          rw (found, kill_call, killed)
            (All-update id _ r.next r.executions (after_kill-id signal now) v)
    ]
  ]

  spawn_answered-IsNumbered :
      (now k pid : ℕ) (out errs : List ℕ) (r : Registry)
      → IsNumbered r
      → IsNumbered (spawn_answered to_upper_case decode now k pid out errs r)
  unfolding spawn_answered new_execution
  spawn_answered-IsNumbered now k pid out errs r v = elim (Option-cases (get_elem? r.in_flight k)) [
    | inl missing ↦ rw (missing, spawn_answered) v
    | inr (opts, found) ↦
        rw (found, spawn_answered)
          (All-append (IsOld (r.next + 1)) r.executions _ (IsOld-suc r.next r.executions v)
            ((r.next, pid, omega arith, happen-id now _ _), tt))
  ]

failed_fields :
    (k : ℕ) (r : Registry)
    → ((spawn_failed k r).executions ≡ r.executions) × ((spawn_failed k r).next ≡ r.next)
unfolding spawn_failed
failed_fields k r = ground arith

module _ (encode : Text → List ℕ) (to_upper_case : Text → Text) (decode : List ℕ → Text) where
  spawn_fields :
      (now : ℕ) (cmd : Text) (opts : ExecOptions) (r : Registry)
      → ((spawn encode now cmd opts r).0.executions ≡ unexpired now r.executions)
        × ((spawn encode now cmd opts r).0.next ≡ r.next)
  unfolding spawn expire
  spawn_fields now cmd opts r = ground arith

  spawn-IsNumbered :
      (now : ℕ) (cmd : Text) (opts : ExecOptions) (r : Registry)
      → IsNumbered r
      → IsNumbered (spawn encode now cmd opts r).0
  spawn-IsNumbered now cmd opts r v =
      let w = All-unexpired now r.next r.executions v in
      rw ((spawn_fields now cmd opts r).0, (spawn_fields now cmd opts r).1) w

  pub step-IsNumbered :
      (e : Event) (r : Registry) → IsNumbered r → IsNumbered (step encode to_upper_case decode e r)
  unfolding step list happens expire
  step-IsNumbered (lists now) r v = All-unexpired now r.next r.executions v
  step-IsNumbered (spawns now cmd opts) r v = spawn-IsNumbered now cmd opts r v
  step-IsNumbered (answers now k pid out errs) r v =
      spawn_answered-IsNumbered to_upper_case decode now k pid out errs r v
  step-IsNumbered (fails k) r v = rw ((failed_fields k r).0, (failed_fields k r).1) v
  step-IsNumbered (happening id now h) r v =
      All-update id _ r.next r.executions (happen-id to_upper_case decode now h) v
  step-IsNumbered (kills id signal now) r v =
      kill_call-IsNumbered to_upper_case decode id signal now r v
  step-IsNumbered (waits id) r v = wait-IsNumbered id r v
  step-IsNumbered (waits_raw late_seen id) r v = wait_raw-IsNumbered late_seen id r v

  run-IsNumbered :
      (es : List Event) (r : Registry)
      → IsNumbered r
      → IsNumbered (run encode to_upper_case decode es r)
  unfolding run
  run-IsNumbered [] r v = v
  run-IsNumbered (e ∷ es) r v = run-IsNumbered es _ (step-IsNumbered e r v)

  -- After any history from an empty registry, the id that the next execution gets, whatever its
  -- process, is under no execution that the registry holds.
  pub get-next_id :
      (es : List Event) (pid : ℕ)
      → let r = run encode to_upper_case decode es empty in
        get (execution_id r.next pid) r ≡ err (no_execution (execution_id r.next pid))
  unfolding get
  get-next_id es pid =
      let r = run encode to_upper_case decode es empty in
      rw (find-fresh r.next pid r.executions (run-IsNumbered es empty tt), get)
