-- ===== src/Executions/Registry/Calls/Results.antt =====
-- How results are handed out, and how long executions are kept.
use yurt_playground.Base.{
  ℕ, ◌<◌, ◌≡◌, refl, Bool, false, ◌||◌, List, [], ◌∷◌, Option, none, some, Text, ok, err, arith,
  ◌≢◌,
}
use yurt_playground.Executions.Registry.{
  exited, stuck, Ended, Output, ended, still_running, Execution, Registry,
}
use yurt_playground.Executions.Registry.Sound.{IsSound}
use yurt_playground.Executions.Registry.Calls.{
  no_execution, is_expired, unexpired, expire, find_execution, get, delete, update, wait, released,
  outcome,
}

find-delete : (id : Text) (es : List Execution) → find_execution id (delete id es) ≡ none
unfolding find_execution delete
find-delete id [] = refl
find-delete id (e ∷ es) = ground (arith, find-delete id es)

find-update :
    (id : Text) (f : Execution → Execution) (es : List Execution) (e : Execution)
    → ((x : Execution) → (f x).id ≡ x.id)
    → find_execution id es ≡ some e
    → find_execution id (update id f es) ≡ some (f e)
unfolding find_execution update
find-update id f [] e k h = cc
find-update id f (x ∷ es) e k h = ground (arith, k x, find-update id f es e k)

-- A result that is an exit is read once: the call that hands it out releases the execution, and a
-- later wait finds none under that id.
pub wait_once :
    (id : Text) (r : Registry) (e : Execution) (how : Ended) (out : Output) (t : Bool)
    (error : Option Text)
    → get id r ≡ ok e
    → IsSound e
    → (wait id r).1 ≡ ok (some (ended how out t error))
    → ((wait id r).0.executions ≡ delete id r.executions)
      × (get id (wait id r).0 ≡ err (no_execution id))
unfolding wait released outcome get
wait_once id r e how out t error g v h = ground (arith, find-delete id r.executions)

-- A report on a stuck process releases nothing.
pub wait_stuck :
    (id : Text) (r : Registry) (e : Execution) (out : Output) (t : Bool)
    → get id r ≡ ok e
    → IsSound e
    → e.state ≡ stuck
    → (wait id r).1 ≡ ok (some (still_running out t))
    → (f : Execution) × (get id (wait id r).0 ≡ ok f) × (f.state ≡ stuck)
unfolding wait released outcome get
wait_stuck id r e out t g v s h = (
  record e { read = e.read || false },
  ground
      (arith, find-update id (λ x. record x { read = x.read || false }) r.executions e (λ x. refl)),
  s,
)

find-unexpired :
    (now : ℕ) (id : Text) (es : List Execution) (e : Execution)
    → find_execution id es ≡ some e
    → is_expired now e ≡ false
    → find_execution id (unexpired now es) ≡ some e
unfolding find_execution unexpired
find-unexpired now id [] e h k = cc
find-unexpired now id (x ∷ es) e h k = ground (arith, find-unexpired now id es e)

-- What is not to be dropped at a time: an execution that is running or stuck, or whose result is
-- unread while its retention has not run out.
pub data IsKept (now : ℕ) (e : Execution) : Type 0 where
  live : e.state ≢ exited → IsKept now e
  unread : e.read ≡ false → (t : ℕ) → e.expires_at ≡ some t → now < t → IsKept now e

IsKept-unexpired : (now : ℕ) (e : Execution) → IsKept now e → is_expired now e ≡ false
unfolding is_expired
IsKept-unexpired now e (live h) = ground arith
IsKept-unexpired now e (unread u t x l) = ground arith

-- The clean-up at each list and spawn keeps every execution that is to be kept, as it is, under its
-- id.
pub get-expire :
    (now : ℕ) (id : Text) (r : Registry) (e : Execution)
    → get id r ≡ ok e
    → IsKept now e
    → get id (expire now r) ≡ ok e
unfolding get expire
get-expire now id r e g k =
    ground (arith, find-unexpired now id r.executions e, IsKept-unexpired now e k)
