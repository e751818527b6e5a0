-- ===== src/Net/Session/Start.antt =====
-- `start` and `handle_recv` of play/net/session.ipp, with the handshake of the protocol.
pub mod Coalesced
use play.Common.{ℕ, Bool, not, ◌&&◌, Option, none, some, List, [], ◌∷◌, ◌++◌}
use play.Common.Tests.{ltb, if◌then◌else◌}
use play.Common.Lists.{length, drop}
use play.Common.Outcome.{Outcome, ret, faults, ◌>>=◌, ◌>>◌, Build, play_check}
use play.Common.Map.{is_some}
use play.Net.Protocol.{Decoded}
use play.Net.Session.Receive.{recv_frames}

-- What a session calls of its `Protocol` template argument.
pub record Protocol (S : Type 0) : Type 0 where
  pub create : S
  pub accepted : S → Outcome (S × List ℕ)
  pub connected : S → Outcome (S × List ℕ)
  pub is_established : S → Bool
  pub handshake : S → List ℕ → Outcome (S × ℕ × List ℕ)
  pub decode : S → List ℕ → Outcome (S × Decoded)

-- What the session does to the outside, in order: `send` of bytes of the handshake, and the calls
-- of its handler.
pub data Event : Type 0 where
  sends : List ℕ → Event
  on_established : Event
  on_receive : ℕ → List ℕ → Event

pub record Session (S : Type 0) : Type 0 where
  pub protocol : Option S
  pub handle : ℕ
  pub accepted : Bool
  pub recv_buf : List ℕ
  pub is_open : Bool

abbrev pub send_handshake : List ℕ → List Event
send_handshake buf = if ltb 0 (length buf) then sends buf ∷ [] else []

abbrev pub notices : List (ℕ × List ℕ) → List Event
notices [] = []
notices ((pic, frame) ∷ frames) = on_receive pic frame ∷ notices frames

module _ {S : Type 0} (m : Build) (ops : Protocol S) where
  -- The native handle of the socket is an argument.
  unfoldable pub start : ℕ → Session S → Outcome (Session S × List Event)
  start native se = do
    play_check m (not (is_some se.protocol))
    play_check m (ltb 0 native)
    (s, buf) ← if se.accepted then ops.accepted ops.create else ops.connected ops.create
    let established = if ops.is_established s then on_established ∷ [] else []
    ret (record se { protocol = some s; handle = native }, send_handshake buf ++ established)

  -- A call through `protocol_`.
  unfoldable pub protocol_of : Session S → Outcome S
  protocol_of se = elim se.protocol [ none ↦ faults | some s ↦ ret s ]

  -- `recv_frames` on the receive buffer; an exception in it closes the socket.
  unfoldable pub take_frames : Session S → S → List ℕ → Outcome (Session S × List Event)
  take_frames se s buf = do
    r ← recv_frames m ops.decode s buf []
    ret (
      record se {
        protocol = some r.state;
        recv_buf = r.rest;
        is_open = not r.failed && se.is_open;
      },
      notices r.frames,
    )

  -- `handle_recv` without an error, for the bytes that the socket put into the buffer.
  unfoldable pub handle_recv : Session S → List ℕ → Outcome (Session S × List Event)
  handle_recv se chunk = do
    s ← protocol_of se
    let buf = se.recv_buf ++ chunk
    if ops.is_established s then take_frames se s buf else do
      (s', consumed_len, send) ← ops.handshake s buf
      let rest = drop consumed_len buf
      if not (ops.is_established s')
          then ret (record se { protocol = some s'; recv_buf = rest }, send_handshake send)
          else do
            (se', events) ← take_frames se s' rest
            ret (se', send_handshake send ++ (on_established ∷ events))
