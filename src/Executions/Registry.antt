-- ===== src/Executions/Registry.antt =====
-- src/executions.ts: the registry's state. An execution's record holds the object's fields, and where
-- its `#run` stands; a promise is an `Option`, `none` until it settles.
pub mod Loop
pub mod Calls
pub mod Sound
use yurt_playground.Base.{
  ℕ, ◌+◌, ◌-◌, Bool, true, false, List, [], ◌∷◌, Option, none, some, Text, ℤ, decimal, ◌++◌,
  text_eq, length, if◌then◌else◌,
}
use yurt_playground.Executions.Capture.{Capture}
use yurt_playground.Executions.Line.{ExecOptions}
use yurt_playground.Executions.Signals.{HostStatus}

pub data ExecutionState : Type 0 where
  running exited stuck : ExecutionState

abbrev pub is_exited : ExecutionState → Bool
is_exited exited = true
is_exited running = false
is_exited stuck = false

-- `Exit`'s first three fields.
pub record Ended : Type 0 where
  pub code : Option ℤ
  pub signal : Option Text
  pub core_dumped : Bool

pub record Output : Type 0 where
  pub stdout : Text
  pub stderr : Text
  pub stdout_truncated : Bool
  pub stderr_truncated : Bool

-- What `wait` resolves to: an exit (with the machinery's error, if it failed), or the report on a
-- process that outlived its SIGKILL.
pub data Result : Type 0 where
  ended : Ended → Output → Bool → Option Text → Result
  still_running : Output → Bool → Result

-- Where `#run` waits: for the next tick or the exit; for the deadline's own kill; for the peek of a
-- stuck process; after the stuck report, for the exit; after the exit, for the kills; nowhere.
pub data Phase : Type 0 where
  polling killing_late peeking watching reaping over : Phase

-- A call of the signaller, and when it was made.
pub record Sent : Type 0 where
  pub pid : ℕ
  pub number : ℕ
  pub at : ℕ

-- `sent` is the calls of the signaller for the process, in order.
pub record Execution : Type 0 where
  pub id : Text
  pub state : ExecutionState
  pub started_at : ℕ
  pub pid : ℕ
  pub deadline : ℕ
  pub stdout : Capture
  pub stderr : Capture
  pub exit : Option HostStatus
  pub phase : Phase
  pub done : Option Result
  pub late : Option Result
  pub killed : Option Text
  pub killed_at : Option ℕ
  pub sent : List Sent
  pub killing : ℕ
  pub leader_exited : Bool
  pub timed_out : Bool
  pub expires_at : Option ℕ
  pub read : Bool

-- `in_flight`: the options of the spawns whose process is not there yet; `starting` counts them.
pub record Registry : Type 0 where
  pub executions : List Execution
  pub next : ℕ
  pub starting : ℕ
  pub in_flight : List ExecOptions

abbrev pub default_timeout_ms : ℕ
default_timeout_ms = 120000

abbrev pub default_max_output_bytes : ℕ
default_max_output_bytes = 1048576

abbrev pub max_active_executions : ℕ
max_active_executions = 16

abbrev pub retention_ms : ℕ
retention_ms = 600000

abbrev pub kill_grace_ms : ℕ
kill_grace_ms = 2000

-- `x${next}-${pid}`.
unfoldable pub execution_id : ℕ → ℕ → Text
execution_id next pid = 120 ∷ decimal next ++ 45 ∷ decimal pid
