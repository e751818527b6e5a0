-- ===== src/Net/PulseFb.antt =====
-- play/net/pulse_fb.hpp and pulse_fb.ipp: a pulse whose frames are flatbuffers objects, and the
-- `on_receive` of pulse.ipp, which unpacks with it. What flatbuffers makes of an object or of bytes,
-- and what `send` of a session returns, are arguments.
pub mod Calling
pub mod Tests
use play.Common.{ℕ, Bool, not, Option, none, some, List, [], ◌∷◌}
use play.Common.Tests.{◌==◌, if◌then◌else◌}
use play.Common.Outcome.{Outcome, ret, faults, ◌>>=◌, ◌>>◌, Build, play_check}
use play.Common.Map.{find, insert, nat_key}
use play.Net.Pulse.Calls.{Pulse, topic_closed, call}
use play.Net.Pulse.Tree.{Heap, Post, publish}

-- `PLAY_CHECK(session)` and then a call through the pointer, 0 where it is null.
unfoldable pub session_through : Build → ℕ → Outcome ℕ
session_through m session = do
  play_check m (not (session == 0))
  if session == 0 then faults else ret session

module _ {Obj : Type 0} (pack : Obj → List ℕ) (sends : ℕ → ℕ → List ℕ → Bool → Bool) where
  -- The static `send`: `sends` is what the session's own one returns.
  unfoldable pub send_packed : ℕ → ℕ → Obj → Bool → Outcome Bool
  send_packed se topic obj encrypt =
      if se == 0 then faults else ret (sends se topic (pack obj) encrypt)

  -- `send` through the pulse's own session.
  unfoldable pub send_own : Build → Pulse → ℕ → Obj → Bool → Outcome Bool
  unfolding send_packed
  send_own m p topic obj encrypt = do
    play_check m (not (p.session == 0))
    send_packed p.session topic obj encrypt

  -- The two forms of `call`: the pulse, and the callback where it is run at once.
  unfoldable pub call_fb : Build → Pulse → ℕ → ℕ → Obj → ℕ → Bool → Outcome (Pulse × List ℕ)
  unfolding send_packed
  call_fb m p req res obj cb encrypt = do
    play_check m (not (p.session == 0))
    sent ← send_packed p.session req obj encrypt
    if sent then call m p req res cb >>= (λ q. ret (q, [])) else ret (p, cb ∷ [])

  unfoldable pub call_unanswered : Build → Pulse → ℕ → Obj → ℕ → Bool → Outcome (List ℕ)
  unfolding send_packed
  call_unanswered m p req obj cb encrypt = do
    play_check m (not (p.session == 0))
    sent ← send_packed p.session req obj encrypt
    ret (if sent then [] else cb ∷ [])

module _ {Root Frame : Type 0} (get_root_table : List ℕ → Root) (verify : Root → List ℕ → Bool)
    (unpack_to : Root → Frame) where
  -- A frame that does not verify is the null pointer.
  unfoldable pub unpack_fn : List ℕ → Option Frame
  unpack_fn data' =
      let fb_obj = get_root_table data' in
      if not (verify fb_obj data') then none else some (unpack_to fb_obj)

module _ {Frame : Type 0} where
  -- The first unpacker of a topic stays.
  unfoldable pub add_unpacker :
      ℕ
      → (List ℕ → Option Frame)
      → List (ℕ × (List ℕ → Option Frame))
      → List (ℕ × (List ℕ → Option Frame))
  add_unpacker topic fn unpackers = insert topic fn unpackers

  unfoldable pub unpack : List (ℕ × (List ℕ → Option Frame)) → ℕ → List ℕ → Option Frame
  unpack unpackers topic data' = elim (find topic unpackers) [ none ↦ none | some fn ↦ fn data' ]

  -- `on_receive`: what is posted, and the frame that goes with it.
  unfoldable pub on_receive_frame :
      Build
      → List (ℕ × (List ℕ → Option Frame))
      → Heap
      → ℕ
      → ℕ
      → ℕ
      → List ℕ
      → Outcome (List Post × Option Frame)
  unfolding unpack
  on_receive_frame m unpackers h root se topic data' = do
    play_check m (not (topic == 1))
    play_check m (not (topic == topic_closed))
    elim (unpack unpackers topic data') [
      | none ↦ ret ([], none)
      | some frame ↦ publish h root se topic >>= (λ posts. ret (posts, some frame))
    ]
