-- ===== src/Executions/Registry/Calls/Steps.antt =====
-- The registry as a state machine: a history is the sequence of the calls made to it and of what
-- happens to its executions, each with the clock's reading, in any order.
use yurt_playground.Base.{ℕ, Bool, List, [], ◌∷◌, Text}
use yurt_playground.Executions.Line.{ExecOptions}
use yurt_playground.Executions.Registry.{Registry}
use yurt_playground.Executions.Registry.Loop.{Happening}
use yurt_playground.Executions.Registry.Calls.{
  list, spawn, spawn_failed, spawn_answered, happens, kill_call, wait, wait_raw,
}

pub data Event : Type 0 where
  lists : ℕ → Event
  spawns : ℕ → Text → ExecOptions → Event
  answers : ℕ → ℕ → ℕ → List ℕ → List ℕ → Event
  fails : ℕ → Event
  happening : Text → ℕ → Happening → Event
  kills : Text → Text → ℕ → Event
  waits : Text → Event
  waits_raw : Bool → Text → Event

abbrev pub empty : Registry
empty = record { executions = []; next = 1; starting = 0; in_flight = [] }

module _ (encode : Text → List ℕ) (to_upper_case : Text → Text) (decode : List ℕ → Text) where
  unfoldable pub step : Event → Registry → Registry
  step (lists now) r = (list now r).0
  step (spawns now cmd opts) r = (spawn encode now cmd opts r).0
  step (answers now k pid out errs) r = spawn_answered to_upper_case decode now k pid out errs r
  step (fails k) r = spawn_failed k r
  step (happening id now h) r = happens to_upper_case decode id now h r
  step (kills id signal now) r = (kill_call to_upper_case id signal now r).0
  step (waits id) r = (wait id r).0
  step (waits_raw late_seen id) r = (wait_raw late_seen id r).0

  unfoldable pub run : List Event → Registry → Registry
  run [] r = r
  run (e ∷ es) r = run es (step e r)
