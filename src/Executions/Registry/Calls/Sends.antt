-- ===== src/Executions/Registry/Calls/Sends.antt =====
-- What a happening sends to an execution's process: nothing, or the deadline's SIGKILL.
use yurt_playground.Base.{
  ℕ, ◌≤◌, ◌≡◌, refl, sym, subst, ◌∙◌, ◌⊎◌, inl, inr, Bool, true, false, not, ◌&&◌, ◌||◌, List, [],
  ◌∷◌, ◌++◌, Option, none, some, Text, chars, ok, arith, leb, ◌==◌, Bool-cases, Option-cases,
}
use yurt_playground.Executions.Signals.{HostStatus, signal_number, sigkill, full_name}
use yurt_playground.Executions.Registry.{
  Phase, polling, killing_late, peeking, watching, reaping, over, Execution, Sent,
}
use yurt_playground.Executions.Registry.Loop.{
  kill, signalled, killed_late, in_loop, wake, happen, happen_at, Happening, take_output, finish,
  failed, wakes, exits, kill_settles, kill_returns, kill_fails, peek_answers, peek_fails, leaves,
  grace_over,
}
use yurt_playground.Executions.Registry.Sound.{IsSound, timed-IsSound, taken-IsSound, phase_taken}

-- Whether a process was sent a signal at a time.
unfoldable pub was_sent : ℕ → ℕ → ℕ → List Sent → Bool
was_sent pid n t [] = false
was_sent pid n t (s ∷ sent) = (s.pid == pid && s.number == n && s.at == t) || was_sent pid n t sent

pub was_sent-append :
    (pid n t : ℕ) (before : List Sent) (s : Sent)
    → was_sent pid n t before ≡ true
    → was_sent pid n t (before ++ s ∷ []) ≡ true
unfolding was_sent
was_sent-append pid n t [] s h = cc
was_sent-append pid n t (b ∷ before) s h = ground (arith, was_sent-append pid n t before s)

pub was_sent-push :
    (pid n t : ℕ) (before : List Sent)
    → was_sent pid n t (before ++ record { pid = pid; number = n; at = t } ∷ []) ≡ true
unfolding was_sent
was_sent-push pid n t [] = ground arith
was_sent-push pid n t (b ∷ before) = ground (arith, was_sent-push pid n t before)

-- What stays as it is from one execution to another: the process, the deadline, and what was sent.
pub record Same (e f : Execution) : Type 0 where
  pub pid : f.pid ≡ e.pid
  pub deadline : f.deadline ≡ e.deadline
  pub timed_out : f.timed_out ≡ e.timed_out
  pub sent : f.sent ≡ e.sent

-- The deadline's own kill.
pub record Timed (now : ℕ) (e f : Execution) : Type 0 where
  pub pid : f.pid ≡ e.pid
  pub deadline : f.deadline ≡ e.deadline
  pub due : e.deadline ≤ now
  pub before : e.timed_out ≡ false
  pub after : f.timed_out ≡ true
  pub sent : f.sent ≡ e.sent ++ record { pid = e.pid; number = sigkill; at = now } ∷ []

unchanged : (e : Execution) → Same e e
unchanged e = record { pid = refl; deadline = refl; timed_out = refl; sent = refl }

from_taken :
    (now : ℕ) (out errs : List ℕ) (e f : Execution)
    → Same (take_output out errs e) f ⊎ Timed now (take_output out errs e) f
    → Same e f ⊎ Timed now e f
unfolding take_output
from_taken now out errs e f (inl s) =
    inl (record { pid = s.pid; deadline = s.deadline; timed_out = s.timed_out; sent = s.sent })
from_taken now out errs e f (inr t) = inr (record {
  pid = t.pid;
  deadline = t.deadline;
  due = t.due;
  before = t.before;
  after = t.after;
  sent = t.sent;
})

module _ (to_upper_case : Text → Text) (decode : List ℕ → Text)
    (known : signal_number to_upper_case (chars "SIGKILL") ≡ ok sigkill) where
  kill_running :
      (now : ℕ) (e : Execution)
      → IsSound e
      → e.phase ≡ polling
      → kill to_upper_case (chars "SIGKILL") now e
        ≡ ok (
          signalled (full_name to_upper_case (chars "SIGKILL")) sigkill now e,
          some (e.pid, sigkill),
        )
  unfolding kill
  kill_running now e v p =
      let runs = v.fits in
      let here : e.leader_exited ≡ false = elim (Bool-cases e.leader_exited) [
        | inl gone ↦ elim (v.leader_gone gone) [ inl r ↦ cc | inr o ↦ cc ]
        | inr here ↦ here
      ] in
      rw (runs, p, here, known) refl

  pub Timed-in_loop :
      (now : ℕ) (e : Execution)
      → IsSound e
      → e.phase ≡ polling
      → e.timed_out ≡ false
      → e.deadline ≤ now
      → Timed now e (in_loop to_upper_case decode now e)
  unfolding in_loop killed_late signalled
  Timed-in_loop now e v p early due =
      let late : Execution = record e { timed_out = true } in
      let test : (not e.timed_out && leb e.deadline now) ≡ true = ground arith in
      let killed = kill_running now late (timed-IsSound to_upper_case decode e v) p in
      rw (test, killed)
        (record {
          pid = refl;
          deadline = refl;
          due = due;
          before = early;
          after = refl;
          sent = refl;
        })

  pub in_loop_cases :
      (now : ℕ) (e : Execution)
      → IsSound e
      → e.phase ≡ polling
      → Same e (in_loop to_upper_case decode now e)
        ⊎ Timed now e (in_loop to_upper_case decode now e)
  unfolding in_loop
  in_loop_cases now e v p = elim (Bool-cases (not e.timed_out && leb e.deadline now)) [
    | inl test ↦ inr (Timed-in_loop now e v p (ground (arith, test)) (ground (arith, test)))
    | inr test ↦ elim (Bool-cases (grace_over e.killed_at now)) [
      | inl late ↦
          rw (test, late)
            (inl (record { pid = refl; deadline = refl; timed_out = refl; sent = refl }))
      | inr waits ↦ rw (test, waits) (inl (unchanged e))
    ]
  ]

  pub wake_here :
      (now : ℕ) (out errs : List ℕ) (e : Execution)
      → e.exit ≡ none
      → wake to_upper_case decode now out errs e
        ≡ in_loop to_upper_case decode now (take_output out errs e)
  unfolding wake
  wake_here now out errs e here = by_exit e.exit here
    where
      by_exit :
          (x : Option HostStatus)
          → x ≡ none
          → elim x [
            | some s ↦ record e { leader_exited = true; phase = reaping }
            | none ↦ in_loop to_upper_case decode now (take_output out errs e)
          ]
            ≡ in_loop to_upper_case decode now (take_output out errs e)
      by_exit none h = refl
      by_exit (some s) h = cc

  wake_gone :
      (now : ℕ) (out errs : List ℕ) (e : Execution) (s : HostStatus)
      → e.exit ≡ some s
      → Same e (wake to_upper_case decode now out errs e)
  unfolding wake
  wake_gone now out errs e s gone = ground arith

  -- What a wake-up does at a run that waits for it.
  wake_cases :
      (now : ℕ) (out errs : List ℕ) (e : Execution)
      → IsSound e
      → e.phase ≡ polling
      → Same e (wake to_upper_case decode now out errs e)
        ⊎ Timed now e (wake to_upper_case decode now out errs e)
  wake_cases now out errs e v p = elim (Option-cases e.exit) [
    | inr (s, gone) ↦ inl (wake_gone now out errs e s gone)
    | inl here ↦
        subst (λ f. Same e f ⊎ Timed now e f) (sym (wake_here now out errs e here))
          (from_taken now out errs e (in_loop to_upper_case decode now (take_output out errs e)) (
            in_loop_cases now (take_output out errs e)
              (taken-IsSound to_upper_case decode out errs e v) (phase_taken out errs e ∙ p)))
  ]

  woken_cases :
      (p : Phase) (now : ℕ) (out errs : List ℕ) (e : Execution)
      → IsSound e
      → e.phase ≡ p
      → Same e (happen_at to_upper_case decode p now (wakes out errs) e)
        ⊎ Timed now e (happen_at to_upper_case decode p now (wakes out errs) e)
  unfolding happen_at
  woken_cases polling now out errs e v p = wake_cases now out errs e v p
  woken_cases killing_late now out errs e v p = inl (unchanged e)
  woken_cases peeking now out errs e v p = inl (unchanged e)
  woken_cases watching now out errs e v p = inl (unchanged e)
  woken_cases reaping now out errs e v p = inl (unchanged e)
  woken_cases over now out errs e v p = inl (unchanged e)

  -- What happens to an execution sends nothing, but for the deadline's kill.
  pub happen_cases :
      (now : ℕ) (h : Happening) (e : Execution)
      → IsSound e
      → Same e (happen to_upper_case decode now h e)
        ⊎ Timed now e (happen to_upper_case decode now h e)
  unfolding happen finish failed take_output
  happen_cases now (wakes out errs) e v = woken_cases e.phase now out errs e v refl
  happen_cases now (exits s) e v = inl (ground arith)
  happen_cases now kill_settles e v = inl (ground arith)
  happen_cases now (leaves out errs) e v = inl (ground arith)
  happen_cases now kill_returns e v = inl (ground arith)
  happen_cases now (kill_fails m) e v = inl (ground arith)
  happen_cases now (peek_answers none) e v = inl (ground arith)
  happen_cases now (peek_answers (some (out, errs))) e v = inl (ground arith)
  happen_cases now (peek_fails m) e v = inl (ground arith)
