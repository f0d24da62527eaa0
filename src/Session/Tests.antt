-- ===== src/Session/Tests.antt =====
-- A swap, and a rollback between a call of `quiesce` and its going on.
use yurt_playground.Base.{◌≡◌, refl, [], ◌∷◌, some}
use yurt_playground.Session.{
  SessionTransportSet, Controller, create_session_controller, quiesce, quiesced,
  commit_transport_swap, rollback, close_transport_set, ready,
}
use yurt_playground.Session.Safe.{
  quiesces, continues, rolls_back, swaps, step, run, Attached, run-Attached,
}

abbrev first_set : SessionTransportSet
first_set = record { pty = 1; jupyter = some 2 }

abbrev second_set : SessionTransportSet
second_set = record { pty = 1; jupyter = some 3 }

abbrev swapped : Controller
swapped = run (quiesces ∷ continues ∷ swaps second_set ∷ []) (create_session_controller first_set)

swapped_test : (swapped.state ≡ ready) × (swapped.current ≡ second_set) × (swapped.closed ≡ 2 ∷ [])
unfolding run step quiesce quiesced commit_transport_swap close_transport_set
swapped_test = (refl, refl, refl)

run-Attached_example :
    let c = run (quiesces ∷ rolls_back ∷ continues ∷ []) (create_session_controller first_set) in
    Attached c (quiesce c).0 × Attached c (quiesced c) × Attached c (rollback c).0
run-Attached_example = run-Attached first_set (quiesces ∷ rolls_back ∷ continues ∷ [])
