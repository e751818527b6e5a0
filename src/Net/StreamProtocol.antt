-- ===== src/Net/StreamProtocol.antt =====
-- play/net/protocol/stream_protocol.hpp and .ipp: bytes as they come, with an empty topic.
pub mod Bypass
pub mod Tests
use play.Common.{ℕ, Bool, true, false, not, ◌&&◌, ◌||◌, List, [], ◌++◌, if◌then◌else◌}
use play.Common.Lists.{length}
use play.Common.Outcome.{Outcome, ret, ◌>>=◌, ◌>>◌, Build, play_check}
use play.Net.Protocol.{Decoded}

pub record StreamProtocol : Type 0 where
  pub accepted : Bool
  pub connected : Bool
  pub closed : Bool

-- The constructor.
abbrev pub init : StreamProtocol
init = record { accepted = false; connected = false; closed = true }

unfoldable pub check_unused : Build → StreamProtocol → Outcome (Unit {0})
check_unused m p = do
  play_check m (not p.accepted)
  play_check m (not p.connected)
  play_check m p.closed

unfoldable pub accept : Build → StreamProtocol → Outcome (StreamProtocol × List ℕ)
accept m p = do check_unused m p; ret (record p { accepted = true; closed = false }, [])

unfoldable pub connect : Build → StreamProtocol → Outcome (StreamProtocol × List ℕ)
connect m p = do check_unused m p; ret (record p { connected = true; closed = false }, [])

unfoldable pub close : StreamProtocol → StreamProtocol
close p = if p.closed then p else record p { closed = true }

unfoldable pub is_established : StreamProtocol → Bool
is_established p = (p.accepted || p.connected) && not p.closed

-- The length that `encode` returns, and the stream buffer.
unfoldable pub encode : Build → StreamProtocol → List ℕ → List ℕ → Outcome (ℕ × List ℕ)
encode m p src dst = do
  play_check m (not p.closed)
  if p.closed
      then ret (0, dst)
      else do play_check m (is_established p); ret (length src, dst ++ src)

unfoldable pub decode : StreamProtocol → List ℕ → Outcome (StreamProtocol × Decoded)
decode p src = ret (p, record { consumed = length src; frame = src; topic = 0 })

unfoldable pub handshake : StreamProtocol → List ℕ → Outcome (StreamProtocol × ℕ × List ℕ)
handshake p src = ret (p, 0, [])
