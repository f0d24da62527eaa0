-- ===== src/Relay/Connections.antt =====
-- src/pkg_relay.ts: the connections of a relay (startPkgRelay: acceptAll, the end of serve, stop), as its
-- state between two events.
pub mod Counted
use yurt_playground.Base.{
  ℕ, zero, suc, ◌+◌, Bool, true, false, ◌||◌, List, [], ◌∷◌, ◌++◌, ◌==◌, leb, if◌then◌else◌, length,
}
use yurt_playground.Relay.{max_connections}

-- `closed` has the descriptors that were closed, in order.
pub record RelayState : Type 0 where
  pub listener : ℕ
  pub stopped : Bool
  pub connections : List ℕ
  pub closed : List ℕ

abbrev pub has : ℕ → List ℕ → Bool
has fd [] = false
has fd (d ∷ fds) = d == fd || has fd fds

-- `connections.delete(fd)`.
unfoldable pub remove : ℕ → List ℕ → List ℕ
remove fd [] = []
remove fd (d ∷ fds) = let rest = remove fd fds in if d == fd then fds else d ∷ rest

abbrev pub close : List ℕ → RelayState → RelayState
close fds s = record s { closed = s.closed ++ fds }

-- A connection is accepted: past the greatest number, it is closed at once.
unfoldable pub accept_one : ℕ → RelayState → RelayState
accept_one fd s =
    if leb max_connections (length s.connections)
    then close (fd ∷ []) s
    else if has fd s.connections
    then s
    else record s { connections = s.connections ++ fd ∷ [] }

-- The descriptors that accept gives, until it would block or fails.
unfoldable pub accept_all : List ℕ → RelayState → RelayState
unfolding accept_one
accept_all [] s = s
accept_all (fd ∷ fds) s = accept_all fds (accept_one fd s)

-- The round that the timer begins.
unfoldable pub accept : List ℕ → RelayState → RelayState
unfolding accept_all
accept fds s = if s.stopped then s else accept_all fds s

-- The end of `serve`.
unfoldable pub end_serve : ℕ → RelayState → RelayState
unfolding remove
end_serve fd s =
    if has fd s.connections
    then close (fd ∷ []) (record s { connections = remove fd s.connections })
    else s

unfoldable pub stop : RelayState → RelayState
stop s =
    if s.stopped
    then s
    else close (s.connections ++ s.listener ∷ []) (record s { stopped = true; connections = [] })

abbrev pub started : ℕ → RelayState
started listener = record { listener = listener; stopped = false; connections = []; closed = [] }

pub data Event : Type 0 where
  accepts : List ℕ → Event
  serve_ends : ℕ → Event
  stops : Event

unfoldable pub happens : Event → RelayState → RelayState
unfolding accept end_serve stop
happens (accepts fds) s = accept fds s
happens (serve_ends fd) s = end_serve fd s
happens stops s = stop s

unfoldable pub happen_all : List Event → RelayState → RelayState
unfolding happens
happen_all [] s = s
happen_all (e ∷ events) s = happen_all events (happens e s)
