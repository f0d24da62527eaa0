-- ===== src/Executions/Registry/Calls/Deadline.antt =====
-- The deadline's SIGKILL: over any history of one execution, it is sent at the first wake-up that finds the
-- deadline past, and once.
use yurt_playground.Base.{
  ℕ, suc, ◌+◌, ◌≤◌, ◌≡◌, refl, sym, ap, subst, ◌∙◌, inl, inr, true, false, List, [], ◌∷◌, ◌++◌,
  none, some, Text, chars, ok, arith, length, length-append, if◌then◌else◌, Bool-cases,
}
use yurt_playground.Executions.Signals.{signal_number, sigkill, full_name}
use yurt_playground.Executions.Registry.{polling, Execution, Sent}
use yurt_playground.Executions.Registry.Loop.{
  signalled, happen, happen_at, Happening, take_output, wakes,
}
use yurt_playground.Executions.Registry.Sound.{
  IsSound, happen-IsSound, kill-IsSound, kill_cases, taken-IsSound,
}
use yurt_playground.Executions.Registry.Calls.{after_kill}
use yurt_playground.Executions.Registry.Calls.Sends.{
  was_sent, was_sent-append, was_sent-push, Same, Timed, Timed-in_loop, in_loop_cases, wake_here,
  happen_cases,
}

-- What is done with an execution: something happens to it, or a caller kills it.
pub data Deed : Type 0 where
  does : Happening → Deed
  kills : Text → Deed

unfoldable pub count_kills : List (ℕ × Deed) → ℕ
count_kills [] = 0
count_kills ((now, does h) ∷ deeds) = count_kills deeds
count_kills ((now, kills signal) ∷ deeds) = suc (count_kills deeds)

-- How an execution stands after a history that began with `first`, of some kills by callers.
record Kept (first g : Execution) (asked : ℕ) : Type 0 where
  sound : IsSound g
  pid : g.pid ≡ first.pid
  deadline : g.deadline ≡ first.deadline
  late :
      g.timed_out ≡ true
      → (t : ℕ) × (first.deadline ≤ t) × (was_sent first.pid sigkill t g.sent ≡ true)
  few : length g.sent ≤ asked + (if g.timed_out then 1 else 0)

Same-Kept :
    (first g f : Execution) (asked : ℕ)
    → IsSound f
    → Same g f
    → Kept first g asked
    → Kept first f asked
Same-Kept first g f asked sound s k = record {
  sound = sound;
  pid = s.pid ∙ k.pid;
  deadline = s.deadline ∙ k.deadline;
  late = λ h.
      let (t, due, was) = k.late (sym s.timed_out ∙ h) in
      (t, due, ap (was_sent first.pid sigkill t) s.sent ∙ was);
  few = rw (s.timed_out, s.sent) k.few;
}

Timed-Kept :
    (now : ℕ) (first g f : Execution) (asked : ℕ)
    → IsSound f
    → Timed now g f
    → Kept first g asked
    → Kept first f asked
Timed-Kept now first g f asked sound s k =
    let count : length f.sent ≡ length g.sent + 1 =
      ap length s.sent
      ∙ length-append g.sent (record { pid = g.pid; number = sigkill; at = now } ∷ []) in
    let fewer : length g.sent ≤ asked + 0 = rw s.before at k.few in
    record {
      sound = sound;
      pid = s.pid ∙ k.pid;
      deadline = s.deadline ∙ k.deadline;
      late = λ h. (
        now,
        (let d = k.deadline in let due = s.due in omega arith),
        ap (was_sent first.pid sigkill now) (
              s.sent
              ∙ ap (λ p. g.sent ++ record { pid = p; number = sigkill; at = now } ∷ []) k.pid)
            ∙ was_sent-push first.pid sigkill now g.sent,
      );
      few = rw s.after (omega (arith, count, fewer));
    }

signalled-Kept :
    (name : Text) (n now : ℕ) (first g : Execution) (asked : ℕ)
    → IsSound (signalled name n now g)
    → Kept first g asked
    → Kept first (signalled name n now g) (suc asked)
unfolding signalled
signalled-Kept name n now first g asked sound k =
    let s : Sent = record { pid = g.pid; number = n; at = now } in
    record {
      sound = sound;
      pid = k.pid;
      deadline = k.deadline;
      late = λ h.
          let (t, due, was) = k.late h in
          (t, due, was_sent-append first.pid sigkill t g.sent s was);
      few = omega (arith, k.few, length-append g.sent (s ∷ []));
    }

more-Kept : (first g : Execution) (asked : ℕ) → Kept first g asked → Kept first g (suc asked)
more-Kept first g asked k = record {
  sound = k.sound;
  pid = k.pid;
  deadline = k.deadline;
  late = k.late;
  few = omega (arith, k.few);
}

push_suc : (m n : ℕ) → m + suc n ≡ suc m + n
push_suc m n = omega arith

module _ (to_upper_case : Text → Text) (decode : List ℕ → Text) where
  unfoldable pub deed : ℕ → Deed → Execution → Execution
  unfolding after_kill
  deed now (does h) e = happen to_upper_case decode now h e
  deed now (kills signal) e = after_kill to_upper_case signal now e

  unfoldable pub history : List (ℕ × Deed) → Execution → Execution
  unfolding deed
  history [] e = e
  history ((now, d) ∷ deeds) e = history deeds (deed now d e)

  killed-Kept :
      (signal : Text) (now : ℕ) (first g : Execution) (asked : ℕ)
      → Kept first g asked
      → Kept first (after_kill to_upper_case signal now g) (suc asked)
  unfolding after_kill
  killed-Kept signal now first g asked k = elim (kill_cases to_upper_case signal now g) [
    | inl (thrown, bad) ↦ rw (bad, after_kill) (more-Kept first g asked k)
    | inr (inl nothing) ↦ rw (nothing, after_kill) (more-Kept first g asked k)
    | inr (inr (n, named, sends)) ↦
        let name = full_name to_upper_case signal in
        rw (sends, after_kill)
          (signalled-Kept name n now first g asked
            (kill-IsSound to_upper_case decode signal now g (signalled name n now g)
              (some (g.pid, n)) sends k.sound)
            k)
  ]

  module _ (known : signal_number to_upper_case (chars "SIGKILL") ≡ ok sigkill) where
    happen-Kept :
        (now : ℕ) (h : Happening) (first g : Execution) (asked : ℕ)
        → Kept first g asked
        → Kept first (happen to_upper_case decode now h g) asked
    happen-Kept now h first g asked k =
        let sound = happen-IsSound to_upper_case decode now h g k.sound in
        elim (happen_cases to_upper_case decode known now h g k.sound) [
          | inl s ↦ Same-Kept first g (happen to_upper_case decode now h g) asked sound s k
          | inr t ↦ Timed-Kept now first g (happen to_upper_case decode now h g) asked sound t k
        ]

    history-Kept :
        (deeds : List (ℕ × Deed)) (first g : Execution) (asked : ℕ)
        → Kept first g asked
        → Kept first (history deeds g) (count_kills deeds + asked)
    unfolding history count_kills
    history-Kept [] first g asked k = subst (Kept first g) (omega arith) k
    history-Kept ((now, does h) ∷ deeds) first g asked k =
        history-Kept deeds first (happen to_upper_case decode now h g) asked
          (happen-Kept now h first g asked k)
    history-Kept ((now, kills signal) ∷ deeds) first g asked k =
        subst (Kept first (history deeds (after_kill to_upper_case signal now g)))
          (push_suc (count_kills deeds) asked)
          (history-Kept deeds first (after_kill to_upper_case signal now g) (suc asked)
            (killed-Kept signal now first g asked k))

    wake-timed_out :
        (now : ℕ) (out errs : List ℕ) (e : Execution)
        → IsSound e
        → e.phase ≡ polling
        → e.exit ≡ none
        → e.deadline ≤ now
        → (happen to_upper_case decode now (wakes out errs) e).timed_out ≡ true
    unfolding happen happen_at take_output
    wake-timed_out now out errs e v p here due =
        let taken = take_output out errs e in
        let w = taken-IsSound to_upper_case decode out errs e v in
        ap (λ q. (happen_at to_upper_case decode q now (wakes out errs) e).timed_out) p
        ∙ ap (λ (f : Execution). f.timed_out)
            (wake_here to_upper_case decode known now out errs e here)
        ∙ elim (Bool-cases e.timed_out) [
          | inr early ↦ (Timed-in_loop to_upper_case decode known now taken w p early due).after
          | inl already ↦ elim (in_loop_cases to_upper_case decode known now taken w p) [
            | inl s ↦ s.timed_out ∙ already
            | inr t ↦ t.after
          ]
        ]

    -- Over any history of an execution to which no signal was sent, of whatever happens to it and of
    -- callers' kills, in any order: once a wake-up finds the process running at or after the deadline,
    -- SIGKILL was sent to it at or after the deadline, whatever callers sent before, and no more signals
    -- were sent to it than callers sent, and one. SIGKILL is the signal of number 9 by that name.
    pub deadline_kills :
        (deeds : List (ℕ × Deed)) (now : ℕ) (out errs : List ℕ) (e : Execution)
        → IsSound e
        → e.sent ≡ []
        → e.timed_out ≡ false
        → (history deeds e).phase ≡ polling
        → (history deeds e).exit ≡ none
        → e.deadline ≤ now
        → let f = happen to_upper_case decode now (wakes out errs) (history deeds e) in
          ((t : ℕ) × (e.deadline ≤ t) × (was_sent e.pid sigkill t f.sent ≡ true))
          × (length f.sent ≤ count_kills deeds + 1)
    deadline_kills deeds now out errs e v unsent early p here due =
        let start : Kept e e 0 = record {
          sound = v;
          pid = refl;
          deadline = refl;
          late = λ h. cc;
          few = rw (unsent, early) (omega arith);
        } in
        let kept = history-Kept deeds e e 0 start in
        let end =
          happen-Kept now (wakes out errs) e (history deeds e) (count_kills deeds + 0) kept in
        let timed =
          wake-timed_out now out errs (history deeds e) kept.sound p here
            (let d = kept.deadline in omega arith) in
        (end.late timed, (let few = rw timed at end.few in omega arith))
