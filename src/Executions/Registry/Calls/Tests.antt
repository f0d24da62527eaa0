-- ===== src/Executions/Registry/Calls/Tests.antt =====
-- A history of the registry: a command that ignores the deadline's SIGKILL until after the grace
-- period, is reported stuck, and then dies.
use yurt_playground.Base.{
  ℕ, ◌+◌, ◌-◌, ◌≤◌, ◌≡◌, refl, true, false, length, ◌&&◌, List, [], ◌∷◌, map, none, some, Text,
  chars, ok, err, leb, if◌then◌else◌, arith, pos,
}
use yurt_playground.Executions.Capture.{new_capture, push}
use yurt_playground.Executions.Line.{ExecOptions}
use yurt_playground.Executions.Signals.{signal_number, full_name, sigkill}
use yurt_playground.Executions.Registry.{
  running, exited, stuck, Registry, Execution, Output, Ended, ended, still_running, over, watching,
  polling, execution_id, kill_grace_ms,
}
use yurt_playground.Executions.Registry.Loop.{
  kill, happen, take_output, wakes, kill_settles, kill_returns,
}
use yurt_playground.Executions.Registry.Sound.{
  IsSound, over-stays, stuck_after_grace, first_sigkill,
}
use yurt_playground.Executions.Registry.Calls.Sends.{was_sent}
use yurt_playground.Executions.Registry.Calls.Deadline.{
  Deed, does, kills, count_kills, history, deadline_kills,
}
use yurt_playground.Executions.Registry.Calls.{
  no_execution, get, delete, expire, wait, find_execution, outcome,
}
use yurt_playground.Executions.Registry.Calls.Steps.{Event, spawns, answers, happening, empty, run}
use yurt_playground.Executions.Registry.Calls.Active.{IsRegistry, run-empty-IsRegistry}
use yurt_playground.Executions.Registry.Calls.Results.{wait_once, get-expire, live}
use yurt_playground.Executions.Registry.Calls.Ids.{get-next_id}

abbrev ascii_upper : Text → Text
ascii_upper = map (λ c. if leb 97 c && leb c 122 then c - 32 else c)

abbrev same : List ℕ → List ℕ
same b = b

abbrev options : ExecOptions
options = record {
  stdin = none;
  timeout_ms = some 100;
  max_output_bytes = some 4;
  cwd = none;
  env = [];
}

abbrev id : Text
id = chars "x1-7"

abbrev story : List Event
story =
    spawns 0 (chars "sleep 9") options
    ∷ answers 5 0 7 (1 ∷ []) []
    ∷ happening id 110 (wakes (2 ∷ []) [])
    ∷ happening id 111 kill_settles
    ∷ happening id 111 kill_returns
    ∷ happening id 2200 (wakes [] [])
    ∷ []

run-empty-IsRegistry_example : IsRegistry (run same ascii_upper same story empty)
run-empty-IsRegistry_example = run-empty-IsRegistry same ascii_upper same story

get-next_id_example :
    let r = run same ascii_upper same story empty in
    get (execution_id r.next 9) r ≡ err (no_execution (execution_id r.next 9))
get-next_id_example = get-next_id same ascii_upper same story 9

-- The execution of `story` just after its spawn.
abbrev started : Execution
started = record {
  id = id;
  state = running;
  started_at = 5;
  pid = 7;
  deadline = 105;
  stdout = new_capture 4;
  stderr = new_capture 4;
  exit = none;
  phase = polling;
  done = none;
  late = none;
  killed = none;
  killed_at = none;
  sent = [];
  killing = 0;
  leader_exited = false;
  timed_out = false;
  expires_at = none;
  read = false;
}

started-IsSound : IsSound started
unfolding new_capture first_sigkill
started-IsSound = ground arith

-- It was sent SIGKILL at 110.
abbrev killed_at_110 : Execution
killed_at_110 = record started {
  timed_out = true;
  killed = some (chars "SIGKILL");
  killed_at = some 110;
  sent = record { pid = 7; number = 9; at = 110 } ∷ [];
}

killed_at_110-IsSound : IsSound killed_at_110
unfolding new_capture first_sigkill
killed_at_110-IsSound = ground arith

abbrev exit_9 : Ended
exit_9 = record { code = some (pos 9); signal = none; core_dumped = false }

abbrev no_output : Output
no_output = record { stdout = []; stderr = []; stdout_truncated = false; stderr_truncated = false }

abbrev gone : Execution
gone = record started {
  state = exited;
  phase = over;
  done = some (ended exit_9 no_output false none);
  expires_at = some 700000;
}

gone-IsSound : IsSound gone
unfolding new_capture first_sigkill
gone-IsSound = ground arith

-- A caller killed it, and it stays.
abbrev clinging : Execution
clinging = record started {
  state = stuck;
  phase = watching;
  done = some (still_running no_output false);
  killed_at = some 20;
  sent = record { pid = 7; number = 9; at = 20 } ∷ [];
}

abbrev holding : Execution → Registry
holding e = record { executions = e ∷ []; next = 2; starting = 0; in_flight = [] }

over-stays_example :
    let f = happen ascii_upper same 300 (wakes [] []) gone in
    (f.phase ≡ over) × (f.state ≡ gone.state) × (f.done ≡ gone.done) × (f.late ≡ gone.late)
over-stays_example = over-stays ascii_upper same 300 (wakes [] []) gone refl

stuck_after_grace_example :
    (t : ℕ) × (first_sigkill killed_at_110.sent ≡ some t)
    × (t + kill_grace_ms ≤ 2200)
    × (killed_at_110.exit ≡ none)
unfolding happen take_output push
stuck_after_grace_example =
    stuck_after_grace ascii_upper same 2200 (wakes [] []) killed_at_110 killed_at_110-IsSound refl
      refl

sigkill_known : signal_number ascii_upper (chars "SIGKILL") ≡ ok sigkill
unfolding signal_number full_name
sigkill_known = refl

-- A caller's TERM, before the deadline.
abbrev early_term : List (ℕ × Deed)
early_term = (50, kills (chars "TERM")) ∷ (60, does (wakes (1 ∷ []) [])) ∷ []

deadline_kills_example :
    let f =
      happen ascii_upper same 110 (wakes [] []) (history ascii_upper same early_term started) in
    ((t : ℕ) × (105 ≤ t) × (was_sent 7 sigkill t f.sent ≡ true))
    × (length f.sent ≤ count_kills early_term + 1)
unfolding history happen take_output push signal_number full_name kill
deadline_kills_example =
    deadline_kills ascii_upper same sigkill_known early_term 110 [] [] started started-IsSound refl
      refl refl refl (omega arith)

wait_once_example :
    ((wait id (holding gone)).0.executions ≡ delete id (holding gone).executions)
    × (get id (wait id (holding gone)).0 ≡ err (no_execution id))
unfolding get find_execution wait outcome
wait_once_example =
    wait_once id (holding gone) gone exit_9 no_output false none refl gone-IsSound refl

get-expire_example : get id (expire 900000 (holding clinging)) ≡ ok clinging
unfolding get find_execution
get-expire_example = get-expire 900000 id (holding clinging) clinging refl (live (λ e. cc))
