-- ===== src/Executions/Registry/Calls.antt =====
-- src/executions.ts, class ExecutionRegistry: its calls. `spawn` is cut at its `await`: what it does
-- before the spawner is called, and after it answered or failed. `wait` is the call that finds the outcome
-- settled (`none` while it is pending); `wait_raw` is what the call does past its await.
pub mod Steps
pub mod Active
pub mod Results
pub mod Ids
pub mod Sends
pub mod Deadline
mod Tests
use yurt_playground.Base.{
  ℕ, zero, suc, ◌+◌, ◌-◌, Bool, true, false, not, ◌&&◌, ◌||◌, List, [], ◌∷◌, ◌++◌, map, Option,
  none, some, Text, Outcome, ok, err, ltb, leb, ◌==◌, if◌then◌else◌, text_eq, get_elem?,
}
use yurt_playground.Executions.Capture.{Capture, new_capture, bytes}
use yurt_playground.Executions.Line.{ExecOptions, Stdin, LineError, build_exec_line}
use yurt_playground.Executions.Signals.{SignalError}
use yurt_playground.Executions.Registry.{
  ExecutionState, running, exited, is_exited, Ended, Output, Result, ended, still_running, Phase,
  polling, Execution, Registry, default_timeout_ms, default_max_output_bytes, max_active_executions,
  execution_id,
}
use yurt_playground.Executions.Registry.Loop.{kill, happen, Happening}

pub data CallError : Type 0 where
  too_many_executions : CallError
  bad_line : LineError → CallError
  no_execution : Text → CallError
  bad_signal : SignalError → CallError

abbrev pub or_else {ℓ} : {A : Type ℓ} → Option A → A → A
or_else none d = d
or_else (some a) d = a

-- `(expiresAt ?? Infinity) <= now`.
is_due : Option ℕ → ℕ → Bool
is_due none now = false
is_due (some t) now = leb t now

pub is_expired : ℕ → Execution → Bool
unfolding is_due
is_expired now e = is_exited e.state && (e.read || is_due e.expires_at now)

unfoldable pub unexpired : ℕ → List Execution → List Execution
unexpired now [] = []
unexpired now (e ∷ es) = let rest = unexpired now es in if is_expired now e then rest else e ∷ rest

pub expire : ℕ → Registry → Registry
unfolding unexpired
expire now r = record r { executions = unexpired now r.executions }

pub count_active : List Execution → ℕ
count_active [] = 0
count_active (e ∷ es) = let rest = count_active es in if is_exited e.state then rest else suc rest

pub active : Registry → ℕ
active r = r.starting + count_active r.executions

pub find_execution : Text → List Execution → Option Execution
find_execution id [] = none
find_execution id (e ∷ es) = if text_eq e.id id then some e else find_execution id es

unfoldable pub get : Text → Registry → Outcome CallError Execution
get id r = elim (find_execution id r.executions) [ none ↦ err (no_execution id) | some e ↦ ok e ]

pub delete : Text → List Execution → List Execution
delete id [] = []
delete id (e ∷ es) = let rest = delete id es in if text_eq e.id id then rest else e ∷ rest

-- The object under an id, changed.
pub update : Text → (Execution → Execution) → List Execution → List Execution
update id f [] = []
update id f (e ∷ es) = (if text_eq e.id id then f e else e) ∷ update id f es

pub remove_at {ℓ} : {A : Type ℓ} → ℕ → List A → List A
remove_at n [] = []
remove_at zero (x ∷ xs) = xs
remove_at (suc n) (x ∷ xs) = x ∷ remove_at n xs

pub record Listed : Type 0 where
  pub id : Text
  pub state : ExecutionState
  pub started_at : ℕ

pub list : ℕ → Registry → Registry × List Listed
list now r =
    let r' = expire now r in
    (r', map (λ e. record { id = e.id; state = e.state; started_at = e.started_at }) r'.executions)

limit_of : ExecOptions → ℕ
limit_of opts = or_else opts.max_output_bytes default_max_output_bytes

module _ (encode : Text → List ℕ) where
  stdin_bytes : Option Stdin → Option (List ℕ)
  stdin_bytes none = none
  stdin_bytes (some (Stdin.string s)) = some (encode s)
  stdin_bytes (some (Stdin.bytes b)) = some b

  -- Up to the spawner's call: what it is given is the line, the input and the limit.
  pub spawn :
      ℕ → Text → ExecOptions → Registry → Registry × Outcome CallError (Text × Option (List ℕ) × ℕ)
  unfolding stdin_bytes limit_of
  spawn now cmd opts r =
      let r' = expire now r in
      if leb max_active_executions (active r')
      then (r', err too_many_executions)
      else elim (build_exec_line cmd opts) [
        | err e ↦ (r', err (bad_line e))
        | ok line ↦ (
          record r' { starting = r'.starting + 1; in_flight = r'.in_flight ++ opts ∷ [] },
          ok (line, stdin_bytes opts.stdin, limit_of opts),
        )
      ]

pub spawn_failed : ℕ → Registry → Registry
spawn_failed k r = elim (get_elem? r.in_flight k) [
  | none ↦ r
  | some opts ↦ record r { starting = r.starting - 1; in_flight = remove_at k r.in_flight }
]

new_execution : ℕ → ℕ → ExecOptions → ℕ → Execution
unfolding limit_of
new_execution now next opts pid = record {
  id = execution_id next pid;
  state = running;
  started_at = now;
  pid = pid;
  deadline = now + or_else opts.timeout_ms default_timeout_ms;
  stdout = new_capture (limit_of opts);
  stderr = new_capture (limit_of opts);
  exit = none;
  phase = polling;
  done = none;
  late = none;
  killed = none;
  killed_at = none;
  sent = [];
  killing = 0;
  leader_exited = false;
  timed_out = false;
  expires_at = none;
  read = false;
}

-- `late ?? done`.
pub outcome : Execution → Option Result
outcome e = elim e.late [ none ↦ e.done | some r ↦ some r ]

is_final : Result → Bool
is_final (ended _ _ _ _) = true
is_final (still_running _ _) = false

-- A result that is no stuck report is read; an execution that has exited is released.
released : Text → Result → Execution → Registry → Registry
unfolding is_final
released id result e r =
    if is_exited e.state then record r { executions = delete id r.executions } else record r {
      executions = update id (λ x. record x { read = x.read || is_final result }) r.executions;
    }

pub wait : Text → Registry → Registry × Outcome CallError (Option Result)
unfolding released outcome
wait id r = elim (get id r) [
  | err e ↦ (r, err e)
  | ok e ↦ elim (outcome e) [
    | none ↦ (r, ok none)
    | some result ↦ (released id result e r, ok (some result))
  ]
]

pub record RawOutput : Type 0 where
  pub stdout : List ℕ
  pub stderr : List ℕ
  pub stdout_truncated : Bool
  pub stderr_truncated : Bool

pub data RawResult : Type 0 where
  raw_ended : RawOutput → Ended → Bool → RawResult
  raw_still_running : RawOutput → Bool → RawResult

pub raw_output : Execution → RawOutput
raw_output e = record {
  stdout = bytes e.stdout;
  stderr = bytes e.stderr;
  stdout_truncated = e.stdout.truncated;
  stderr_truncated = e.stderr.truncated;
}

pub raw_result : Execution → Result → RawResult
unfolding raw_output
raw_result e (ended how out timed_out error) = raw_ended (raw_output e) how timed_out
raw_result e (still_running out timed_out) = raw_still_running (raw_output e) true

-- What waitRaw has of the outcome: `late` as its call found it, or else what it awaited, `done`. It does
-- not look at `late` again, though the process may have ended in between.
unfoldable pub raw_outcome : Bool → Execution → Option Result
raw_outcome late_seen e = if late_seen then e.late else e.done

-- Past the await, on the object that the call found: another call may have released it by then.
unfoldable pub settle_raw : Bool → Text → Execution → Registry → Registry × Option RawResult
unfolding released raw_outcome raw_result
settle_raw late_seen id e r = elim (raw_outcome late_seen e) [
  | none ↦ (r, none)
  | some result ↦ (released id result e r, some (raw_result e result))
]

pub wait_raw : Bool → Text → Registry → Registry × Outcome CallError (Option RawResult)
unfolding settle_raw
wait_raw late_seen id r = elim (get id r) [
  | err e ↦ (r, err e)
  | ok e ↦ let settled = settle_raw late_seen id e r in (settled.0, ok settled.1)
]

module _ (to_upper_case : Text → Text) where
  -- The object after a kill: unchanged where the signal is unknown.
  unfoldable pub after_kill : Text → ℕ → Execution → Execution
  after_kill signal now e = elim (kill to_upper_case signal now e) [ err _ ↦ e | ok (f, sent) ↦ f ]

  -- The signal sent, if one was: a pid and a number.
  pub kill_call : Text → Text → ℕ → Registry → Registry × Outcome CallError (Option (ℕ × ℕ))
  unfolding after_kill
  kill_call id signal now r = elim (get id r) [
    | err e ↦ (r, err e)
    | ok e ↦ elim (kill to_upper_case signal now e) [
      | err x ↦ (r, err (bad_signal x))
      | ok (f, sent) ↦
          (record r { executions = update id (after_kill signal now) r.executions }, ok sent)
    ]
  ]

  module _ (decode : List ℕ → Text) where
    -- The spawner answered: the execution is in the map before its run's first pass.
    pub spawn_answered : ℕ → ℕ → ℕ → List ℕ → List ℕ → Registry → Registry
    unfolding new_execution
    spawn_answered now k pid out errs r = elim (get_elem? r.in_flight k) [
      | none ↦ r
      | some opts ↦
          let e = new_execution now r.next opts pid in
          record {
            executions =
                r.executions ++ happen to_upper_case decode now (Happening.wakes out errs) e ∷ [];
            next = r.next + 1;
            starting = r.starting - 1;
            in_flight = remove_at k r.in_flight;
          }
    ]

    pub happens : Text → ℕ → Happening → Registry → Registry
    happens id now h r = record r {
      executions = update id (happen to_upper_case decode now h) r.executions;
    }
