-- ===== src/Executions/Signals.antt =====
-- src/executions.ts: signal names and numbers, and how a process ended. `to_upper_case`, a
-- parameter, is the language's `toUpperCase`, whose Unicode tables are not written out.
pub mod Names
use yurt_playground.Base.{
  ℕ, ◌+◌, ◌-◌, Bool, true, false, ◌&&◌, List, [], ◌∷◌, ◌++◌, Option, none, some, Text, chars,
  Outcome, ok, err, ltb, leb, ◌==◌, if◌then◌else◌, text_eq, starts_with, get_or, length, decimal, ℤ,
}

-- A wait status: the exit code, or the signal number and whether there is a core dump.
pub data WaitStatus : Type 0 where
  exit_code : ℤ → WaitStatus
  signal_death : ℕ → Bool → WaitStatus

-- What a host reports: a status, or a bare number.
pub data HostStatus : Type 0 where
  status : WaitStatus → HostStatus
  number : ℤ → HostStatus

unfoldable pub as_wait_status : HostStatus → WaitStatus
as_wait_status (status s) = s
as_wait_status (number n) = exit_code n

-- The signals that a kill takes.
abbrev pub signals : List (Text × ℕ)
signals =
    (chars "SIGHUP", 1)
    ∷ (chars "SIGINT", 2)
    ∷ (chars "SIGQUIT", 3)
    ∷ (chars "SIGKILL", 9)
    ∷ (chars "SIGUSR1", 10)
    ∷ (chars "SIGUSR2", 12)
    ∷ (chars "SIGTERM", 15)
    ∷ []

abbrev pub sigkill : ℕ
sigkill = 9

abbrev signal_names : List Text
signal_names =
    []
    ∷ chars "SIGHUP"
    ∷ chars "SIGINT"
    ∷ chars "SIGQUIT"
    ∷ chars "SIGILL"
    ∷ chars "SIGTRAP"
    ∷ chars "SIGABRT"
    ∷ chars "SIGBUS"
    ∷ chars "SIGFPE"
    ∷ chars "SIGKILL"
    ∷ chars "SIGUSR1"
    ∷ chars "SIGSEGV"
    ∷ chars "SIGUSR2"
    ∷ chars "SIGPIPE"
    ∷ chars "SIGALRM"
    ∷ chars "SIGTERM"
    ∷ chars "SIGSTKFLT"
    ∷ chars "SIGCHLD"
    ∷ chars "SIGCONT"
    ∷ chars "SIGSTOP"
    ∷ chars "SIGTSTP"
    ∷ chars "SIGTTIN"
    ∷ chars "SIGTTOU"
    ∷ chars "SIGURG"
    ∷ chars "SIGXCPU"
    ∷ chars "SIGXFSZ"
    ∷ chars "SIGVTALRM"
    ∷ chars "SIGPROF"
    ∷ chars "SIGWINCH"
    ∷ chars "SIGIO"
    ∷ chars "SIGPWR"
    ∷ chars "SIGSYS"
    ∷ []

abbrev sigrtmin : ℕ
sigrtmin = 35

unfoldable pub signal_name : ℕ → Text
signal_name signal =
    if ltb 0 signal && ltb signal (length signal_names)
    then get_or signal_names signal []
    else if leb sigrtmin signal && leb signal 64
    then (if signal == sigrtmin
        then chars "SIGRTMIN"
        else chars "SIGRTMIN+" ++ decimal (signal - sigrtmin))
    else chars "SIG" ++ decimal signal

pub data SignalError : Type 0 where
  unknown_signal : Text → SignalError

find_signal : Text → List (Text × ℕ) → Option ℕ
find_signal name [] = none
find_signal name ((k, n) ∷ ks) = if text_eq k name then some n else find_signal name ks

module _ (to_upper_case : Text → Text) where
  -- The name with its "SIG", in capitals.
  unfoldable pub full_name : Text → Text
  full_name signal =
      if starts_with (to_upper_case signal) (chars "SIG")
      then to_upper_case signal
      else chars "SIG" ++ to_upper_case signal

  unfoldable pub signal_number : Text → Outcome SignalError ℕ
  unfolding find_signal
  signal_number signal = elim (find_signal (full_name signal) signals) [
    | none ↦ err (unknown_signal signal)
    | some n ↦ ok n
  ]
