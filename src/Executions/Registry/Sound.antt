-- ===== src/Executions/Registry/Sound.antt =====
-- The invariant of one execution, whatever happens to it and in whatever order.
use yurt_playground.Base.{
  ℕ, ◌+◌, ◌≤◌, ◌≡◌, refl, sym, ap, ◌∙◌, Bool, true, false, not, ◌&&◌, ◌||◌, List, [], ◌∷◌, ◌++◌,
  Option, none, some, Text, ok, err, arith, chars, Option-cases, Bool-cases, Outcome-cases,
  ok-injective, inl, inr, ◌⊎◌, drop, leb, ◌==◌, if◌then◌else◌,
}
use yurt_playground.Executions.Capture.{Capture, push}
use yurt_playground.Executions.Signals.{signal_number, sigkill, full_name, HostStatus, SignalError}
use yurt_playground.Executions.Registry.{
  ExecutionState, running, exited, stuck, is_exited, Phase, polling, killing_late, peeking,
  watching, reaping, over, Execution, Sent, kill_grace_ms, Result, ended, still_running,
}
use yurt_playground.Executions.Registry.Loop.{
  kill, signalled, first_kill, killed_late, in_loop, wake, grace_over, happen, happen_at, Happening,
  take_output, finish, failed, wakes, exits, kill_settles, kill_returns, kill_fails, peek_answers,
  peek_fails, leaves,
}

abbrev pub is_some {ℓ} : {A : Type ℓ} → Option A → Bool
is_some none = false
is_some (some a) = true

abbrev pub expected_state : Phase → ExecutionState
expected_state polling = running
expected_state killing_late = running
expected_state peeking = stuck
expected_state watching = stuck
expected_state reaping = running
expected_state over = exited

abbrev pub IsBounded : Capture → Type 0
IsBounded c = c.size ≤ c.limit

abbrev pub has_outcome : Execution → Bool
has_outcome e = is_some e.late || is_some e.done

abbrev pub is_final : Option Result → Bool
is_final none = false
is_final (some (ended _ _ _ _)) = true
is_final (some (still_running _ _)) = false

-- When SIGKILL was first sent.
unfoldable pub first_sigkill : List Sent → Option ℕ
first_sigkill [] = none
first_sigkill (s ∷ more) = if s.number == sigkill then some s.at else first_sigkill more

-- The state is the one of the place where the run waits; `killed_at` is when SIGKILL was first sent to
-- the process, and a stuck one was sent it; the exit is known where the run waits for the kills; an
-- execution that is over has an outcome, and one with an exit for an outcome is over; the captures are
-- within their limits.
pub record IsSound (e : Execution) : Type 0 where
  pub fits : e.state ≡ expected_state e.phase
  pub since_sigkill : e.killed_at ≡ first_sigkill e.sent
  pub stuck_killed : e.state ≡ stuck → is_some (first_sigkill e.sent) ≡ true
  pub reaping_exited : e.phase ≡ reaping → is_some e.exit ≡ true
  pub leader_gone : e.leader_exited ≡ true → (e.phase ≡ reaping) ⊎ (e.phase ≡ over)
  pub over_settled : e.phase ≡ over → has_outcome e ≡ true
  pub watching_reported : e.phase ≡ watching → is_some e.done ≡ true
  pub final_over : is_final e.late || is_final e.done ≡ true → e.phase ≡ over
  pub late_final : is_some e.late ≡ is_final e.late
  pub out_bounded : IsBounded e.stdout
  pub err_bounded : IsBounded e.stderr

pub push-IsBounded : (c : Capture) (bytes : List ℕ) → IsBounded c → IsBounded (push c bytes)
unfolding push
push-IsBounded c bytes h = ground arith

first_sigkill-push :
    (before : List Sent) (s : Sent)
    → first_sigkill (before ++ s ∷ []) ≡ (
        if s.number == sigkill
        then first_kill (first_sigkill before) s.at
        else first_sigkill before)
unfolding first_sigkill first_kill
first_sigkill-push [] s = ground arith
first_sigkill-push (b ∷ before) s = ground (arith, first_sigkill-push before s)

stuck_first :
    (before : List Sent) (s : Sent)
    → is_some (first_sigkill before) ≡ true
    → is_some (first_sigkill (before ++ s ∷ [])) ≡ true
unfolding first_sigkill
stuck_first [] s h = cc
stuck_first (b ∷ before) s h = ground (arith, stuck_first before s)

-- A signal keeps the execution sound, and it is the first SIGKILL, or not, that dates `killed_at`.
signalled-IsSound :
    (name : Text) (n now : ℕ) (e : Execution) → IsSound e → IsSound (signalled name n now e)
unfolding signalled
signalled-IsSound name n now e v =
    let s : Sent = record { pid = e.pid; number = n; at = now } in
    record {
      fits = v.fits;
      since_sigkill =
          ap (λ t. if n == sigkill then first_kill t now else t) v.since_sigkill
          ∙ sym (first_sigkill-push e.sent s);
      stuck_killed = λ h. stuck_first e.sent s (v.stuck_killed h);
      reaping_exited = v.reaping_exited;
      leader_gone = v.leader_gone;
      over_settled = v.over_settled;
      watching_reported = v.watching_reported;
      final_over = v.final_over;
      late_final = v.late_final;
      out_bounded = v.out_bounded;
      err_bounded = v.err_bounded;
    }

phase_signalled :
    (name : Text) (n now : ℕ) (e : Execution) → (signalled name n now e).phase ≡ e.phase
unfolding signalled
phase_signalled name n now e = refl

pub phase_taken : (out errs : List ℕ) (e : Execution) → (take_output out errs e).phase ≡ e.phase
unfolding take_output
phase_taken out errs e = refl

module _ (to_upper_case : Text → Text) where
  -- A kill is refused, or does nothing, or sends a signal.
  pub kill_cases :
      (signal : Text) (now : ℕ) (e : Execution)
      → ((thrown : SignalError) × (kill to_upper_case signal now e ≡ err thrown))
        ⊎ (kill to_upper_case signal now e ≡ ok (e, none))
        ⊎ ((n : ℕ) × (signal_number to_upper_case signal ≡ ok n)
            × (kill to_upper_case signal now e
                ≡ ok (signalled (full_name to_upper_case signal) n now e, some (e.pid, n))))
  unfolding kill
  kill_cases signal now e = elim (Bool-cases (is_exited e.state || e.leader_exited)) [
    | inl gone ↦ inr (inl (rw (gone, kill) refl))
    | inr here ↦ elim (Outcome-cases (signal_number to_upper_case signal)) [
      | inl (thrown, bad) ↦ inl (thrown, rw (here, kill, bad) refl)
      | inr (n, known) ↦ inr (inr (n, known, rw (here, kill, known) refl))
    ]
  ]

module _ (to_upper_case : Text → Text) (decode : List ℕ → Text) where
  failed-IsSound :
      (m : Text) (now : ℕ) (e : Execution)
      → IsSound e
      → IsSound (failed to_upper_case decode m now e)
  unfolding failed finish
  failed-IsSound m now e v = ground arith

  paused-IsSound :
      (e : Execution) → e.phase ≡ polling → IsSound e → IsSound (record e { phase = killing_late })
  paused-IsSound e p v = ground arith

  killed_late-IsSound :
      (now : ℕ) (e : Execution)
      → e.phase ≡ polling
      → IsSound e
      → IsSound
          (killed_late to_upper_case decode now (kill to_upper_case (chars "SIGKILL") now e) e)
  unfolding killed_late
  killed_late-IsSound now e p v = elim (kill_cases to_upper_case (chars "SIGKILL") now e) [
    | inl (thrown, bad) ↦ rw bad (failed-IsSound (chars "unknown signal SIGKILL") now e v)
    | inr (inl nothing) ↦ rw nothing (paused-IsSound e p v)
    | inr (inr (n, known, sends)) ↦ rw sends (
        paused-IsSound (signalled (full_name to_upper_case (chars "SIGKILL")) n now e)
          (phase_signalled (full_name to_upper_case (chars "SIGKILL")) n now e ∙ p)
          (signalled-IsSound (full_name to_upper_case (chars "SIGKILL")) n now e v))
  ]

  stuck-IsSound :
      (now : ℕ) (e : Execution)
      → e.phase ≡ polling
      → grace_over e.killed_at now ≡ true
      → IsSound e
      → IsSound (record e { state = stuck; phase = peeking })
  unfolding grace_over
  stuck-IsSound now e p late v = elim (Option-cases e.killed_at) [
    | inl never ↦ let no = rw (never, grace_over) at late in cc
    | inr (t, sent) ↦ let since = sym v.since_sigkill ∙ sent in ground arith
  ]

  pub timed-IsSound : (e : Execution) → IsSound e → IsSound (record e { timed_out = true })
  timed-IsSound e v = ground arith

  pub taken-IsSound :
      (out errs : List ℕ) (e : Execution) → IsSound e → IsSound (take_output out errs e)
  unfolding take_output
  taken-IsSound out errs e v =
      ground (
        arith,
        push-IsBounded e.stdout out v.out_bounded,
        push-IsBounded e.stderr errs v.err_bounded,
      )

  in_loop-IsSound :
      (now : ℕ) (e : Execution)
      → e.phase ≡ polling
      → IsSound e
      → IsSound (in_loop to_upper_case decode now e)
  unfolding in_loop
  in_loop-IsSound now e p v = elim (Bool-cases (not e.timed_out && leb e.deadline now)) [
    | inl due ↦
        rw due (killed_late-IsSound now (record e { timed_out = true }) p (timed-IsSound e v))
    | inr early ↦ elim (Bool-cases (grace_over e.killed_at now)) [
      | inl late ↦ rw (early, late) (stuck-IsSound now e p late v)
      | inr waits ↦ rw (early, waits) v
    ]
  ]

  reaped-IsSound :
      (e : Execution) (s : HostStatus)
      → e.phase ≡ polling
      → e.exit ≡ some s
      → IsSound e
      → IsSound (record e { leader_exited = true; phase = reaping })
  reaped-IsSound e s p x v = ground arith

  wake-IsSound :
      (now : ℕ) (out errs : List ℕ) (e : Execution)
      → e.phase ≡ polling
      → IsSound e
      → IsSound (wake to_upper_case decode now out errs e)
  unfolding wake
  wake-IsSound now out errs e p v = elim (Option-cases e.exit) [
    | inr (s, gone) ↦ rw (gone, wake) (reaped-IsSound e s p gone v)
    | inl here ↦
        rw (here, wake)
          (in_loop-IsSound now (take_output out errs e) (phase_taken out errs e ∙ p)
            (taken-IsSound out errs e v))
  ]

  woken-IsSound :
      (p : Phase) (now : ℕ) (out errs : List ℕ) (e : Execution)
      → e.phase ≡ p
      → IsSound e
      → IsSound (happen_at to_upper_case decode p now (wakes out errs) e)
  unfolding happen_at
  woken-IsSound polling now out errs e p v = wake-IsSound now out errs e p v
  woken-IsSound killing_late now out errs e p v = v
  woken-IsSound peeking now out errs e p v = v
  woken-IsSound watching now out errs e p v = v
  woken-IsSound reaping now out errs e p v = v
  woken-IsSound over now out errs e p v = v

  pub happen-IsSound :
      (now : ℕ) (h : Happening) (e : Execution)
      → IsSound e
      → IsSound (happen to_upper_case decode now h e)
  unfolding happen happen_at finish kill failed take_output
  happen-IsSound now (exits s) e v = ground arith
  happen-IsSound now kill_settles e v = ground arith
  happen-IsSound now (wakes out errs) e v = woken-IsSound e.phase now out errs e refl v
  happen-IsSound now (leaves out errs) e v =
      ground (
        arith,
        push-IsBounded e.stdout out v.out_bounded,
        push-IsBounded e.stderr errs v.err_bounded,
      )
  happen-IsSound now kill_returns e v = ground arith
  happen-IsSound now (kill_fails m) e v = ground arith
  happen-IsSound now (peek_answers none) e v = ground arith
  happen-IsSound now (peek_answers (some (out, errs))) e v = ground (
    arith,
    push-IsBounded e.stdout (drop e.stdout.size out) v.out_bounded,
    push-IsBounded e.stderr (drop e.stderr.size errs) v.err_bounded,
  )
  happen-IsSound now (peek_fails m) e v = ground arith

  pub kill-IsSound :
      (signal : Text) (now : ℕ) (e f : Execution) (sent : Option (ℕ × ℕ))
      → kill to_upper_case signal now e ≡ ok (f, sent)
      → IsSound e
      → IsSound f
  kill-IsSound signal now e f sent k v = elim (kill_cases to_upper_case signal now e) [
    | inl (thrown, bad) ↦ let no = sym bad ∙ k in cc
    | inr (inl nothing) ↦
        let same : e ≡ f = ap (λ t. t.0) (ok-injective (sym nothing ∙ k)) in rw (← same) v
    | inr (inr (n, known, sends)) ↦
        let same = ap (λ t. t.0) (ok-injective (sym sends ∙ k)) in
        rw (← same) (signalled-IsSound (full_name to_upper_case signal) n now e v)
  ]

  -- What is over stays as it is: nothing that happens later changes its state or its outcome.
  pub over-stays :
      (now : ℕ) (h : Happening) (e : Execution)
      → e.phase ≡ over
      → ((happen to_upper_case decode now h e).phase ≡ over)
        × ((happen to_upper_case decode now h e).state ≡ e.state)
        × ((happen to_upper_case decode now h e).done ≡ e.done)
        × ((happen to_upper_case decode now h e).late ≡ e.late)
  unfolding happen
  over-stays now (exits s) e v = ground arith
  over-stays now kill_settles e v = ground arith
  over-stays now (wakes out errs) e v = ground arith
  over-stays now (leaves out errs) e v = ground arith
  over-stays now kill_returns e v = ground arith
  over-stays now (kill_fails m) e v = ground arith
  over-stays now (peek_answers p) e v = ground arith
  over-stays now (peek_fails m) e v = ground arith

  dated_stuck :
      (now : ℕ) (h : Happening) (e : Execution)
      → e.state ≡ running
      → (happen to_upper_case decode now h e).state ≡ stuck
      → (t : ℕ) × (e.killed_at ≡ some t) × (t + kill_grace_ms ≤ now) × (e.exit ≡ none)
  unfolding happen wake in_loop killed_late grace_over finish kill signalled failed take_output
  dated_stuck now (wakes out errs) e r v = elim (Option-cases e.killed_at) [
    | inl never ↦ absurd (ground arith)
    | inr (t, sent) ↦ (t, sent, ground arith, ground arith)
  ]
  dated_stuck now (leaves out errs) e r v = absurd (ground arith)
  dated_stuck now (exits s) e r v = absurd (ground arith)
  dated_stuck now kill_settles e r v = absurd (ground arith)
  dated_stuck now kill_returns e r v = absurd (ground arith)
  dated_stuck now (kill_fails m) e r v = absurd (ground arith)
  dated_stuck now (peek_answers none) e r v = absurd (ground arith)
  dated_stuck now (peek_answers (some p)) e r v = absurd (ground arith)
  dated_stuck now (peek_fails m) e r v = absurd (ground arith)

  -- An execution becomes stuck only once the grace period has run out since SIGKILL was first sent to its
  -- process, by the deadline or a caller, and only at a wake-up that finds no exit.
  pub stuck_after_grace :
      (now : ℕ) (h : Happening) (e : Execution)
      → IsSound e
      → e.state ≡ running
      → (happen to_upper_case decode now h e).state ≡ stuck
      → (t : ℕ) × (first_sigkill e.sent ≡ some t) × (t + kill_grace_ms ≤ now) × (e.exit ≡ none)
  stuck_after_grace now h e v r s =
      let (t, dated, over_grace, here) = dated_stuck now h e r s in
      (t, sym v.since_sigkill ∙ dated, over_grace, here)
