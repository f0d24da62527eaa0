-- ===== src/Session.antt =====
-- src/session_controller.ts: createSessionController. A call is cut at its awaits: `quiesce` runs up to
-- its await when it is called and goes on in a later step; a swap and a rollback are one later step. A
-- transport is known by its number; `closed` are those that were closed.
mod Safe
mod Tests
use yurt_playground.Base.{
  ℕ, Bool, true, false, not, List, [], ◌∷◌, ◌++◌, Option, none, some, Outcome, ok, err, ◌==◌,
  if◌then◌else◌,
}

pub data SessionState : Type 0 where
  booting ready quiescing restoring failed : SessionState

pub record SessionTransportSet : Type 0 where
  pub pty : ℕ
  pub jupyter : Option ℕ

pub record Controller : Type 0 where
  pub state : SessionState
  pub current : SessionTransportSet
  pub previous : Option SessionTransportSet
  pub closed : List ℕ

pub data SessionError : Type 0 where
  cannot_quiesce not_quiesced cannot_roll_back : SessionError

abbrev pub create_session_controller : SessionTransportSet → Controller
create_session_controller initial = record {
  state = ready;
  current = initial;
  previous = none;
  closed = [];
}

quiesce_in : SessionState → Controller → Controller × Outcome SessionError (Unit {0})
quiesce_in ready c = (record c { state = quiescing; previous = some c.current }, ok tt)
quiesce_in _ c = (c, err cannot_quiesce)

unfoldable pub quiesce : Controller → Controller × Outcome SessionError (Unit {0})
unfolding quiesce_in
quiesce c = quiesce_in c.state c

-- After the await of a `quiesce` that did not throw.
unfoldable pub quiesced : Controller → Controller
quiesced c = record c { state = restoring }

other_jupyter : Option ℕ → Option ℕ → List ℕ
other_jupyter none next = []
other_jupyter (some old) none = old ∷ []
other_jupyter (some old) (some next) = if old == next then [] else old ∷ []

-- The transports of the old set that `closeTransportSet` closes.
unfoldable pub close_transport_set : SessionTransportSet → SessionTransportSet → List ℕ
unfolding other_jupyter
close_transport_set old next =
    (if old.pty == next.pty then [] else old.pty ∷ []) ++ other_jupyter old.jupyter next.jupyter

commit_in :
    SessionState → SessionTransportSet → Controller → Controller × Outcome SessionError (Unit {0})
commit_in restoring next c = (
  record c {
    current = next;
    previous = none;
    state = ready;
    closed = c.closed ++ close_transport_set c.current next;
  },
  ok tt,
)
commit_in _ next c = (c, err not_quiesced)

unfoldable pub commit_transport_swap :
    SessionTransportSet → Controller → Controller × Outcome SessionError (Unit {0})
unfolding commit_in
commit_transport_swap next c = commit_in c.state next c

restored : Option SessionTransportSet → SessionTransportSet → SessionTransportSet
restored none current = current
restored (some previous) current = previous

roll_in : SessionState → Controller → Controller × Outcome SessionError (Unit {0})
unfolding restored
roll_in restoring c =
    (record c { current = restored c.previous c.current; previous = none; state = ready }, ok tt)
roll_in quiescing c =
    (record c { current = restored c.previous c.current; previous = none; state = ready }, ok tt)
roll_in _ c = (c, err cannot_roll_back)

unfoldable pub rollback : Controller → Controller × Outcome SessionError (Unit {0})
unfolding roll_in
rollback c = roll_in c.state c
