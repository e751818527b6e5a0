-- ===== src/Net/Server.antt =====
-- play/net/server.hpp and server.ipp. A session is its address and the handle that it has; `start` of
-- the session gives it the native handle of its socket. The acceptor is outside: what it comes to is
-- an argument.
pub mod Lost
pub mod Tests
use play.Common.{ℕ, Bool, true, false, not, Option, List, [], ◌∷◌, ◌++◌}
use play.Common.Tests.{◌==◌, if◌then◌else◌}
use play.Common.Outcome.{Outcome, ret, ◌>>=◌, ◌>>◌, Build, play_check}
use play.Common.Map.{find, insert, erase, nat_key}

pub record Peer : Type 0 where
  pub address : ℕ
  pub handle : ℕ

-- A session that was made and not started has the handle 0.
abbrev pub make_session : ℕ → Peer
make_session address = record { address = address; handle = 0 }

-- `pulse` is the listener's address, 0 where none is bound.
pub record Server : Type 0 where
  pub sessions : List (ℕ × ℕ)
  pub listening : Bool
  pub pulse : ℕ

abbrev pub init : Server
init = record { sessions = []; listening = false; pulse = 0 }

-- The calls of `handle_established`, `handle_closed` and `handle_receive`, and those of the pulse.
pub data Notice : Type 0 where
  handle_established handle_closed pulse_established pulse_closed : ℕ → Notice
  handle_receive pulse_receive : ℕ → ℕ → List ℕ → Notice

-- `listens` says that opening the acceptor threw nothing, and `ready` is what `on_start` returns.
unfoldable pub start : Bool → Bool → Server → Server × Bool
start listens ready s = if listens then (record s { listening = true }, ready) else (s, false)

unfoldable pub get_session : ℕ → Server → Option ℕ
get_session handle s = find handle s.sessions

unfoldable pub stop : Server → Server
stop s = record s { listening = false }

unfoldable pub bind_pulse : Build → ℕ → Server → Outcome Server
bind_pulse m listener s = do play_check m (not (listener == 0)); ret (record s { pulse = listener })

abbrev pub if_bound : Server → Notice → List Notice
if_bound s n = if s.pulse == 0 then [] else n ∷ []

unfoldable pub on_established : Peer → Server → List Notice
on_established se s = handle_established se.address ∷ if_bound s (pulse_established se.address)

unfoldable pub on_closed : Peer → Server → Server × List Notice
on_closed se s = (
  record s { sessions = erase se.handle s.sessions },
  handle_closed se.address ∷ if_bound s (pulse_closed se.address),
)

unfoldable pub on_receive : Peer → ℕ → List ℕ → Server → List Notice
on_receive se pic data' s =
    if_bound s (pulse_receive se.address pic data') ++ (handle_receive se.address pic data' ∷ [])

-- `handle_accept` without an error: the session is kept, and then started.
unfoldable pub handle_accept : Peer → ℕ → Server → Server × Peer
handle_accept se native s =
    (record s { sessions = insert se.handle se.address s.sessions }, record se { handle = native })

-- What a server's runner calls: `handle_accept` for a new session, with the native handle that it
-- gets, and `on_closed` for a session with the handle that it got.
pub data Act : Type 0 where
  accepts : ℕ → ℕ → Act
  closes : ℕ → ℕ → Act

unfoldable pub act : Act → Server → Server
act (accepts address native) s = (handle_accept (make_session address) native s).0
act (closes address native) s = (on_closed (record { address = address; handle = native }) s).0

unfoldable pub run : List Act → Server → Server
run [] s = s
run (a ∷ acts) s = run acts (act a s)
