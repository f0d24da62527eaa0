-- ===== src/Executions/Registry/Calls/Active.antt =====
-- The limit on active executions, and the invariant of the registry's executions.
use yurt_playground.Base.{
  ℕ, zero, suc, ◌+◌, ◌≤◌, ◌≡◌, refl, Bool, true, ◌||◌, List, [], ◌∷◌, ◌++◌, length, length-append,
  some, Text, ok, err, arith, All, All-append, get_elem?, text_eq, Bool-cases, Option-cases,
  Outcome-cases, inl, inr, ◌⊎◌,
}
use yurt_playground.Executions.Line.{ExecOptions}
use yurt_playground.Executions.Capture.{new_capture}
use yurt_playground.Executions.Registry.{
  is_exited, Result, Execution, Registry, max_active_executions,
}
use yurt_playground.Executions.Registry.Loop.{kill, signalled, happen, Happening}
use yurt_playground.Executions.Registry.Sound.{
  IsSound, kill-IsSound, first_sigkill, happen-IsSound, over-stays,
}
use yurt_playground.Executions.Registry.Calls.{
  no_execution, after_kill, is_expired, unexpired, expire, count_active, active, find_execution,
  get, delete, update, remove_at, list, spawn, spawn_failed, new_execution, spawn_answered, happens,
  kill_call, wait, wait_raw, released, outcome, settle_raw, raw_outcome, is_final,
}
use yurt_playground.Executions.Registry.Calls.Steps.{
  Event, lists, spawns, answers, fails, happening, kills, waits, waits_raw, empty, step, run,
}

count-unexpired :
    (now : ℕ) (es : List Execution) → count_active (unexpired now es) ≡ count_active es
unfolding count_active unexpired is_expired
count-unexpired now [] = refl
count-unexpired now (e ∷ es) = ground (arith, count-unexpired now es)

count-delete : (id : Text) (es : List Execution) → count_active (delete id es) ≤ count_active es
unfolding count_active delete
count-delete id [] = omega arith
count-delete id (e ∷ es) = ground (arith, count-delete id es)

count-append :
    (es : List Execution) (e : Execution) → count_active (es ++ e ∷ []) ≤ count_active es + 1
unfolding count_active
count-append [] e = ground arith
count-append (x ∷ es) e = ground (arith, count-append es e)

-- A change of an object that keeps it sound, and exited if it has.
abbrev Keeps : (Execution → Execution) → Type 0
Keeps f =
    (e : Execution)
    → IsSound e
    → IsSound (f e) × (is_exited e.state ≡ true → is_exited (f e).state ≡ true)

count-update :
    (id : Text) (f : Execution → Execution) (es : List Execution)
    → Keeps f
    → All IsSound es
    → count_active (update id f es) ≤ count_active es
unfolding count_active update
count-update id f [] k h = omega arith
count-update id f (e ∷ es) k h = ground (arith, count-update id f es k h.1, k e h.0)

length-remove_at :
    (k : ℕ) (xs : List ExecOptions) (x : ExecOptions)
    → get_elem? xs k ≡ some x
    → suc (length (remove_at k xs)) ≡ length xs
unfolding remove_at
length-remove_at k [] x e = cc
length-remove_at zero (y ∷ xs) x e = refl
length-remove_at (suc k) (y ∷ xs) x e = omega (arith, length-remove_at k xs x e)

-- The spawns in flight are counted, no more than the limit is active, and every execution is sound.
pub record IsRegistry (r : Registry) : Type 0 where
  pub counted : r.starting ≡ length r.in_flight
  pub limited : active r ≤ max_active_executions
  pub sound : All IsSound r.executions

All-unexpired : (now : ℕ) (es : List Execution) → All IsSound es → All IsSound (unexpired now es)
unfolding unexpired
All-unexpired now [] h = tt
All-unexpired now (e ∷ es) h = elim (Bool-cases (is_expired now e)) [
  | inl gone ↦ rw gone (All-unexpired now es h.1)
  | inr here ↦ rw here (h.0, All-unexpired now es h.1)
]

All-delete : (id : Text) (es : List Execution) → All IsSound es → All IsSound (delete id es)
unfolding delete
All-delete id [] h = tt
All-delete id (e ∷ es) h = elim (Bool-cases (text_eq e.id id)) [
  | inl gone ↦ rw gone (All-delete id es h.1)
  | inr here ↦ rw here (h.0, All-delete id es h.1)
]

All-update :
    (id : Text) (f : Execution → Execution) (es : List Execution)
    → Keeps f
    → All IsSound es
    → All IsSound (update id f es)
unfolding update
All-update id f [] k h = tt
All-update id f (e ∷ es) k h = elim (Bool-cases (text_eq e.id id)) [
  | inl here ↦ rw here ((k e h.0).0, All-update id f es k h.1)
  | inr other ↦ rw other (h.0, All-update id f es k h.1)
]

find-IsSound :
    (id : Text) (es : List Execution) (e : Execution)
    → find_execution id es ≡ some e
    → All IsSound es
    → IsSound e
unfolding find_execution
find-IsSound id [] e k h = cc
find-IsSound id (x ∷ es) e k h = ground (arith, find-IsSound id es e)

expire-IsRegistry : (now : ℕ) (r : Registry) → IsRegistry r → IsRegistry (expire now r)
unfolding expire active
expire-IsRegistry now r v = record {
  counted = v.counted;
  limited = omega (arith, count-unexpired now r.executions, v.limited);
  sound = All-unexpired now r.executions v.sound;
}

update-IsRegistry :
    (id : Text) (f : Execution → Execution) (r : Registry)
    → Keeps f
    → IsRegistry r
    → IsRegistry (record r { executions = update id f r.executions })
unfolding active
update-IsRegistry id f r k v = record {
  counted = v.counted;
  limited = omega (arith, count-update id f r.executions k v.sound, v.limited);
  sound = All-update id f r.executions k v.sound;
}

delete-IsRegistry :
    (id : Text) (r : Registry)
    → IsRegistry r
    → IsRegistry (record r { executions = delete id r.executions })
unfolding active
delete-IsRegistry id r v = record {
  counted = v.counted;
  limited = omega (arith, count-delete id r.executions, v.limited);
  sound = All-delete id r.executions v.sound;
}

spawn-IsRegistry :
    (encode : Text → List ℕ) (now : ℕ) (cmd : Text) (opts : ExecOptions) (r : Registry)
    → IsRegistry r
    → IsRegistry (spawn encode now cmd opts r).0
unfolding spawn active
spawn-IsRegistry encode now cmd opts r v =
    let w = expire-IsRegistry now r v in
    ground (arith, length-append (expire now r).in_flight (opts ∷ []))

spawn_failed-IsRegistry : (k : ℕ) (r : Registry) → IsRegistry r → IsRegistry (spawn_failed k r)
unfolding spawn_failed active
spawn_failed-IsRegistry k r v = elim (Option-cases (get_elem? r.in_flight k)) [
  | inl missing ↦ rw (missing, spawn_failed) v
  | inr (opts, found) ↦ ground (arith, length-remove_at k r.in_flight opts found)
]

mark-Keeps : (b : Bool) → Keeps (λ x. record x { read = x.read || b })
mark-Keeps b e v = (ground arith, λ h. h)

released-IsRegistry :
    (id : Text) (result : Result) (e : Execution) (r : Registry)
    → IsRegistry r
    → IsRegistry (released id result e r)
unfolding released
released-IsRegistry id result e r v = elim (Bool-cases (is_exited e.state)) [
  | inl gone ↦ rw (gone, released) (delete-IsRegistry id r v)
  | inr here ↦ rw (here, released) (update-IsRegistry id _ r (mark-Keeps (is_final result)) v)
]

pub get_cases :
    (id : Text) (r : Registry)
    → (get id r ≡ err (no_execution id)) ⊎ ((e : Execution) × (get id r ≡ ok e))
unfolding get
get_cases id r = elim (Option-cases (find_execution id r.executions)) [
  | inl missing ↦ inl (rw (missing, get))
  | inr (e, found) ↦ inr (e, rw (found, get))
]

wait-IsRegistry : (id : Text) (r : Registry) → IsRegistry r → IsRegistry (wait id r).0
unfolding wait
wait-IsRegistry id r v = elim (get_cases id r) [
  | inl missing ↦ rw (missing, wait) v
  | inr (e, found) ↦ elim (Option-cases (outcome e)) [
    | inl pending ↦ rw (found, wait, pending) v
    | inr (x, settled) ↦ rw (found, wait, settled) (released-IsRegistry id x e r v)
  ]
]

settle_raw-IsRegistry :
    (late_seen : Bool) (id : Text) (e : Execution) (r : Registry)
    → IsRegistry r
    → IsRegistry (settle_raw late_seen id e r).0
unfolding settle_raw
settle_raw-IsRegistry late_seen id e r v = elim (Option-cases (raw_outcome late_seen e)) [
  | inl pending ↦ rw (settle_raw, pending) v
  | inr (x, settled) ↦ rw (settle_raw, settled) (released-IsRegistry id x e r v)
]

wait_raw-IsRegistry :
    (late_seen : Bool) (id : Text) (r : Registry)
    → IsRegistry r
    → IsRegistry (wait_raw late_seen id r).0
unfolding wait_raw
wait_raw-IsRegistry late_seen id r v = elim (get_cases id r) [
  | inl missing ↦ rw (missing, wait_raw) v
  | inr (e, found) ↦ rw (found, wait_raw) (settle_raw-IsRegistry late_seen id e r v)
]

module _ (to_upper_case : Text → Text) (decode : List ℕ → Text) where
  happen-Keeps : (now : ℕ) (h : Happening) → Keeps (happen to_upper_case decode now h)
  happen-Keeps now h e v = (
    happen-IsSound to_upper_case decode now h e v,
    λ x. ground (arith, over-stays to_upper_case decode now h e),
  )

  state_after_kill :
      (signal : Text) (now : ℕ) (e : Execution)
      → (after_kill to_upper_case signal now e).state ≡ e.state
  unfolding after_kill kill signalled
  state_after_kill signal now e = ground arith

  after_kill-Keeps : (signal : Text) (now : ℕ) → Keeps (after_kill to_upper_case signal now)
  unfolding after_kill
  after_kill-Keeps signal now e v = (kept, λ x. rw (state_after_kill signal now e) x)
    where
      kept : IsSound (after_kill to_upper_case signal now e)
      kept = elim (Outcome-cases (kill to_upper_case signal now e)) [
        | inl (thrown, bad) ↦ rw (bad, after_kill) v
        | inr ((f, sent), good) ↦
            rw (good, after_kill) (kill-IsSound to_upper_case decode signal now e f sent good v)
      ]

  kill_call-IsRegistry :
      (id signal : Text) (now : ℕ) (r : Registry)
      → IsRegistry r
      → IsRegistry (kill_call to_upper_case id signal now r).0
  unfolding kill_call
  kill_call-IsRegistry id signal now r v = elim (get_cases id r) [
    | inl missing ↦ rw (missing, kill_call) v
    | inr (e, found) ↦ elim (Outcome-cases (kill to_upper_case signal now e)) [
      | inl (x, refused) ↦ rw (found, kill_call, refused) v
      | inr ((f, sent), killed) ↦
          rw (found, kill_call, killed) (update-IsRegistry id _ r (after_kill-Keeps signal now) v)
    ]
  ]

  new_execution-IsSound :
      (now next pid : ℕ) (opts : ExecOptions) → IsSound (new_execution now next opts pid)
  unfolding new_execution new_capture first_sigkill
  new_execution-IsSound now next pid opts = ground arith

  spawn_answered-IsRegistry :
      (now k pid : ℕ) (out errs : List ℕ) (r : Registry)
      → IsRegistry r
      → IsRegistry (spawn_answered to_upper_case decode now k pid out errs r)
  unfolding spawn_answered active
  spawn_answered-IsRegistry now k pid out errs r v = elim (Option-cases (get_elem? r.in_flight k)) [
    | inl missing ↦ rw (missing, spawn_answered) v
    | inr (opts, found) ↦
        let e =
          happen to_upper_case decode now (Happening.wakes out errs)
            (new_execution now r.next opts pid) in
        rw (found, spawn_answered)
          (record {
            counted = omega (arith, length-remove_at k r.in_flight opts found, v.counted);
            limited = omega (
              arith,
              length-remove_at k r.in_flight opts found,
              count-append r.executions e,
              v.counted,
              v.limited,
            );
            sound = All-append IsSound r.executions (e ∷ []) v.sound (
              happen-IsSound to_upper_case decode now _ _
                  (new_execution-IsSound now r.next pid opts),
              tt,
            );
          })
  ]

module _ (encode : Text → List ℕ) (to_upper_case : Text → Text) (decode : List ℕ → Text) where
  -- Every call and everything that happens to an execution keeps the invariant of the registry.
  pub step-IsRegistry :
      (e : Event) (r : Registry) → IsRegistry r → IsRegistry (step encode to_upper_case decode e r)
  unfolding step list happens
  step-IsRegistry (lists now) r v = expire-IsRegistry now r v
  step-IsRegistry (spawns now cmd opts) r v = spawn-IsRegistry encode now cmd opts r v
  step-IsRegistry (answers now k pid out errs) r v =
      spawn_answered-IsRegistry to_upper_case decode now k pid out errs r v
  step-IsRegistry (fails k) r v = spawn_failed-IsRegistry k r v
  step-IsRegistry (happening id now h) r v =
      update-IsRegistry id _ r (happen-Keeps to_upper_case decode now h) v
  step-IsRegistry (kills id signal now) r v =
      kill_call-IsRegistry to_upper_case decode id signal now r v
  step-IsRegistry (waits id) r v = wait-IsRegistry id r v
  step-IsRegistry (waits_raw late_seen id) r v = wait_raw-IsRegistry late_seen id r v

  pub run-IsRegistry :
      (es : List Event) (r : Registry)
      → IsRegistry r
      → IsRegistry (run encode to_upper_case decode es r)
  unfolding run
  run-IsRegistry [] r v = v
  run-IsRegistry (e ∷ es) r v = run-IsRegistry es _ (step-IsRegistry e r v)

  -- After any history of calls and events from an empty registry, in any order: at most 16 executions
  -- are running, stuck or starting, the starting ones are counted, and every execution is sound: its state
  -- is that of the place where its run waits; its output is within its limit; its `killed_at` is when the
  -- signaller was first called with SIGKILL for it, by the deadline or a caller, and unset before; a stuck
  -- one was sent SIGKILL so; one that is over has an outcome, and one with an exit for an outcome is over.
  pub run-empty-IsRegistry :
      (es : List Event) → IsRegistry (run encode to_upper_case decode es empty)
  unfolding active count_active
  run-empty-IsRegistry es = run-IsRegistry es empty (ground arith)
