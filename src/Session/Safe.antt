-- ===== src/Session/Safe.antt =====
-- Transports stay attached until a swap: whatever else a controller is asked, in any order.
use yurt_playground.Base.{◌≡◌, refl, List, [], ◌∷◌, Option, none, some}
use yurt_playground.Session.{
  SessionState, booting, ready, quiescing, restoring, failed, SessionTransportSet, Controller,
  create_session_controller, quiesce_in, quiesce, quiesced, commit_in, commit_transport_swap,
  restored, roll_in, rollback,
}

-- A step of the calls that were made.
pub data Step : Type 0 where
  quiesces continues rolls_back : Step
  swaps : SessionTransportSet → Step

unfoldable pub step : Step → Controller → Controller
step quiesces c = (quiesce c).0
step continues c = quiesced c
step rolls_back c = (rollback c).0
step (swaps next) c = (commit_transport_swap next c).0

unfoldable pub run : List Step → Controller → Controller
run [] c = c
run (s ∷ steps) c = run steps (step s c)

-- What is kept for a rollback is what is attached.
abbrev pub Keeps : Option SessionTransportSet → SessionTransportSet → Type 0
Keeps none current = Unit
Keeps (some previous) current = previous ≡ current

abbrev pub IsSteady : Controller → Type 0
IsSteady c = Keeps c.previous c.current

quiesce_in-IsSteady :
    (state : SessionState) (c : Controller) → IsSteady c → IsSteady (quiesce_in state c).0
unfolding quiesce_in
quiesce_in-IsSteady ready c h = refl
quiesce_in-IsSteady booting c h = h
quiesce_in-IsSteady quiescing c h = h
quiesce_in-IsSteady restoring c h = h
quiesce_in-IsSteady failed c h = h

commit_in-IsSteady :
    (state : SessionState) (next : SessionTransportSet) (c : Controller)
    → IsSteady c
    → IsSteady (commit_in state next c).0
unfolding commit_in
commit_in-IsSteady restoring next c h = tt
commit_in-IsSteady booting next c h = h
commit_in-IsSteady ready next c h = h
commit_in-IsSteady quiescing next c h = h
commit_in-IsSteady failed next c h = h

roll_in-IsSteady :
    (state : SessionState) (c : Controller) → IsSteady c → IsSteady (roll_in state c).0
unfolding roll_in
roll_in-IsSteady restoring c h = tt
roll_in-IsSteady quiescing c h = tt
roll_in-IsSteady booting c h = h
roll_in-IsSteady ready c h = h
roll_in-IsSteady failed c h = h

step-IsSteady : (s : Step) (c : Controller) → IsSteady c → IsSteady (step s c)
unfolding step quiesce quiesced rollback commit_transport_swap
step-IsSteady quiesces c h = quiesce_in-IsSteady c.state c h
step-IsSteady continues c h = h
step-IsSteady rolls_back c h = roll_in-IsSteady c.state c h
step-IsSteady (swaps next) c h = commit_in-IsSteady c.state next c h

run-IsSteady : (steps : List Step) (c : Controller) → IsSteady c → IsSteady (run steps c)
unfolding run
run-IsSteady [] c h = h
run-IsSteady (s ∷ steps) c h = run-IsSteady steps (step s c) (step-IsSteady s c h)

-- A step that is no swap attaches and closes nothing.
abbrev pub Attached : Controller → Controller → Type 0
Attached c next = (next.current ≡ c.current) × (next.closed ≡ c.closed)

restored-eq :
    (previous : Option SessionTransportSet) (current : SessionTransportSet)
    → Keeps previous current
    → restored previous current ≡ current
unfolding restored
restored-eq none current h = refl
restored-eq (some previous) current h = h

quiesce_in-Attached : (state : SessionState) (c : Controller) → Attached c (quiesce_in state c).0
unfolding quiesce_in
quiesce_in-Attached ready c = (refl, refl)
quiesce_in-Attached booting c = (refl, refl)
quiesce_in-Attached quiescing c = (refl, refl)
quiesce_in-Attached restoring c = (refl, refl)
quiesce_in-Attached failed c = (refl, refl)

roll_in-Attached :
    (state : SessionState) (c : Controller) → IsSteady c → Attached c (roll_in state c).0
unfolding roll_in
roll_in-Attached restoring c h = (restored-eq c.previous c.current h, refl)
roll_in-Attached quiescing c h = (restored-eq c.previous c.current h, refl)
roll_in-Attached booting c h = (refl, refl)
roll_in-Attached ready c h = (refl, refl)
roll_in-Attached failed c h = (refl, refl)

-- After any steps from a new controller, in any order: a call of `quiesce`, its going on, and a
-- rollback, whether they are refused or not, leave the transports that are attached as they are, and
-- close none.
pub run-Attached :
    (initial : SessionTransportSet) (steps : List Step)
    → let c = run steps (create_session_controller initial) in
      Attached c (quiesce c).0 × Attached c (quiesced c) × Attached c (rollback c).0
unfolding quiesce quiesced rollback
run-Attached initial steps =
    let c = run steps (create_session_controller initial) in
    (
      quiesce_in-Attached c.state c,
      (refl, refl),
      roll_in-Attached c.state c (run-IsSteady steps (create_session_controller initial) tt),
    )
