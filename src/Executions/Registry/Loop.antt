-- ===== src/Executions/Registry/Loop.antt =====
-- src/executions.ts, ExecutionRegistry: `#run`, `#ended`, `#finish`, `#output` and `kill` on one
-- execution. `#run` is cut at its `await`s; each piece is a function, and reads the clock once.
-- Parameters: the language's `toUpperCase`, and the decoding of bytes as text (TextDecoder).
use yurt_playground.Base.{
  ℕ, ◌+◌, ◌-◌, Bool, true, false, not, ◌&&◌, ◌||◌, List, [], ◌∷◌, ◌++◌, Option, none, some, Text,
  chars, Outcome, ok, err, ◌>>=◌, leb, ◌==◌, if◌then◌else◌, drop, ℤ, is_zero,
}
use yurt_playground.Executions.Capture.{push, bytes}
use yurt_playground.Executions.Signals.{
  HostStatus, status, number, exit_code, signal_death, signal_name, SignalError, signal_number,
  full_name, sigkill,
}
use yurt_playground.Executions.Registry.{
  exited, stuck, is_exited, Ended, Output, Result, ended, still_running, Phase, polling,
  killing_late, peeking, watching, reaping, over, Execution, retention_ms, kill_grace_ms,
}

-- The last signal sent stands for a bare number that is not 0, if one was sent.
number_ended : ℤ → Option Text → Ended
number_ended n none = record { code = some n; signal = none; core_dumped = false }
number_ended n (some killed) =
    if is_zero n
    then record { code = some n; signal = none; core_dumped = false }
    else record { code = none; signal = some killed; core_dumped = false }

unfoldable pub how_ended : Option Text → HostStatus → Ended
unfolding number_ended
how_ended killed (status (exit_code n)) = record {
  code = some n;
  signal = none;
  core_dumped = false;
}
how_ended killed (status (signal_death n core)) = record {
  code = none;
  signal = some (signal_name n);
  core_dumped = core;
}
how_ended killed (number n) = number_ended n killed

unfoldable pub finish : ℕ → Execution → Execution
finish now e = record e { state = exited; expires_at = some (now + retention_ms) }

-- `stdout.push(process.takeStdout())`, and the same for stderr.
unfoldable pub take_output : List ℕ → List ℕ → Execution → Execution
take_output out errs e = record e { stdout = push e.stdout out; stderr = push e.stderr errs }

-- `killedAt ??= Date.now()`.
unfoldable pub first_kill : Option ℕ → ℕ → Option ℕ
first_kill none now = some now
first_kill (some t) now = some t

unfoldable pub grace_over : Option ℕ → ℕ → Bool
grace_over none now = false
grace_over (some t) now = leb (t + kill_grace_ms) now

-- What can happen to an execution: a wake-up of its loop, the exit of its process, a kill's
-- signaller settled, the deadline's kill returned or refused, the peek answered or failed, the end
-- of a stuck process, the end of the wait for the kills.
pub data Happening : Type 0 where
  wakes : List ℕ → List ℕ → Happening
  exits : HostStatus → Happening
  kill_settles : Happening
  kill_returns : Happening
  kill_fails : Text → Happening
  peek_answers : Option (List ℕ × List ℕ) → Happening
  peek_fails : Text → Happening
  leaves : List ℕ → List ℕ → Happening

-- What a kill does past its checks: the signaller is called.
unfoldable pub signalled : Text → ℕ → ℕ → Execution → Execution
unfolding first_kill
signalled name n now e = record e {
  killed = some name;
  killed_at = if n == sigkill then first_kill e.killed_at now else e.killed_at;
  killing = e.killing + 1;
  sent = e.sent ++ record { pid = e.pid; number = n; at = now } ∷ [];
}

abbrev settled_exit : Option HostStatus → HostStatus → Option HostStatus
settled_exit none s = some s
settled_exit (some t) s = some t

module _ (to_upper_case : Text → Text) where
  -- The execution, and what the signaller was called with: a pid and a number.
  unfoldable pub kill : Text → ℕ → Execution → Outcome SignalError (Execution × Option (ℕ × ℕ))
  unfolding signalled
  kill signal now e = if is_exited e.state || e.leader_exited then ok (e, none) else do
    n ← signal_number to_upper_case signal
    ok (signalled (full_name to_upper_case signal) n now e, some (e.pid, n))

  module _ (decode : List ℕ → Text) where
    unfoldable pub output : Execution → Output
    output e = record {
      stdout = decode (bytes e.stdout);
      stderr = decode (bytes e.stderr);
      stdout_truncated = e.stdout.truncated;
      stderr_truncated = e.stderr.truncated;
    }

    -- The `catch` of spawn: the signaller or the host failed.
    unfoldable pub failed : Text → ℕ → Execution → Execution
    failed message now e =
        let f = finish now e in
        record f {
          phase = over;
          done = some (
              ended (record { code = none; signal = none; core_dumped = false }) (output f)
                e.timed_out (some message));
        }

    -- The deadline's kill: the run awaits it. The call of the signaller is in the execution's `sent`.
    unfoldable pub killed_late :
        ℕ → Outcome SignalError (Execution × Option (ℕ × ℕ)) → Execution → Execution
    killed_late now (ok (e, called)) old = record e { phase = killing_late }
    killed_late now (err _) old = failed (chars "unknown signal SIGKILL") now old

    unfoldable pub in_loop : ℕ → Execution → Execution
    unfolding grace_over killed_late
    in_loop now e =
        if not e.timed_out && leb e.deadline now
        then (let late = record e { timed_out = true } in
            killed_late now (kill (chars "SIGKILL") now late) late)
        else if grace_over e.killed_at now
        then record e { state = stuck; phase = peeking }
        else e

    -- One pass of the loop, at a wake-up: the test, the takes, the deadline, the grace period.
    unfoldable pub wake : ℕ → List ℕ → List ℕ → Execution → Execution
    unfolding in_loop
    wake now out errs e = elim e.exit [
      | some s ↦ record e { leader_exited = true; phase = reaping }
      | none ↦ in_loop now (take_output out errs e)
    ]

    -- What the peek shows past what the takes had; the report; from then on the exit is watched for.
    unfoldable pub peeked : Option (List ℕ × List ℕ) → Execution → Execution
    peeked none e = record e {
      phase = watching;
      done = some (still_running (output e) e.timed_out);
    }
    peeked (some (out, errs)) e =
        let f = take_output (drop e.stdout.size out) (drop e.stderr.size errs) e in
        record f { phase = watching; done = some (still_running (output f) f.timed_out) }

    unfoldable pub final : HostStatus → Execution → Result
    final s e = ended (how_ended e.killed s) (output e) e.timed_out none

    -- The exit of a process that was reported stuck.
    unfoldable pub exit_late : HostStatus → ℕ → List ℕ → List ℕ → Execution → Execution
    unfolding final
    exit_late s now out errs e =
        let f = finish now (take_output out errs e) in
        record f { phase = over; late = some (final s f) }

    -- After the loop, once every kill sent has settled.
    unfoldable pub reap : HostStatus → ℕ → List ℕ → List ℕ → Execution → Execution
    unfolding final
    reap s now out errs e =
        let f = finish now (take_output out errs e) in
        record f { phase = over; done = some (final s f) }

    unfoldable pub leave : Phase → Option HostStatus → ℕ → List ℕ → List ℕ → Execution → Execution
    unfolding exit_late reap
    leave watching (some s) now out errs e = exit_late s now out errs e
    leave reaping (some s) now out errs e = if e.killing == 0 then reap s now out errs e else e
    leave _ _ now out errs e = e

    -- Each happening moves the run on from where it waits for it, and is nothing elsewhere.
    unfoldable pub happen_at : Phase → ℕ → Happening → Execution → Execution
    unfolding leave wake peeked
    happen_at polling now (wakes out errs) e = wake now out errs e
    happen_at killing_late now kill_returns e = record e { phase = polling }
    happen_at killing_late now (kill_fails message) e = failed message now e
    happen_at peeking now (peek_answers p) e = peeked p e
    happen_at peeking now (peek_fails message) e = failed message now e
    happen_at p now (exits s) e = record e { exit = settled_exit e.exit s }
    happen_at p now kill_settles e = record e { killing = e.killing - 1 }
    happen_at p now (leaves out errs) e = leave p e.exit now out errs e
    happen_at _ now _ e = e

    unfoldable pub happen : ℕ → Happening → Execution → Execution
    unfolding happen_at leave wake in_loop grace_over killed_late peeked exit_late reap final
    happen now h e = happen_at e.phase now h e
