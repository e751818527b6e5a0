-- ===== src/Net/Session/Start/Coalesced.antt =====
-- A handshake of two messages, when both arrive in one chunk.
use play.Common.{ℕ, ◌≡◌, refl, sym, ap, ◌∙◌, true, false, some, List, [], ◌∷◌, ◌++◌, append-nil}
use play.Common.Lists.{length, drop_of_append, drop_all}
use play.Common.Outcome.{ret, Build}
use play.Net.Session.Receive.{recv_loop, recv_frames}
use play.Net.Session.Start.{
  Protocol, on_established, Session, send_handshake, protocol_of, take_frames, handle_recv,
}

module _ {S : Type 0} (m : Build) (ops : Protocol S) where
  protocol_of-some : (se : Session S) (s : S) → se.protocol ≡ some s → protocol_of m ops se ≡ ret s
  unfolding protocol_of
  protocol_of-some se s e = rw (e) refl

  -- A message that leaves the handshake open.
  recv_answers :
      (se : Session S) (s s1 : S) (a b answer : List ℕ)
      → se.protocol ≡ some s
      → se.recv_buf ≡ []
      → ops.is_established s ≡ false
      → ops.handshake s (a ++ b) ≡ ret (s1, length a, answer)
      → ops.is_established s1 ≡ false
      → handle_recv m ops se (a ++ b)
        ≡ ret (record se { protocol = some s1; recv_buf = b }, send_handshake answer)
  unfolding handle_recv
  recv_answers se s s1 a b answer held empty new step still =
      let whole : se.recv_buf ++ (a ++ b) ≡ a ++ b = ap (◌++ (a ++ b)) empty in
      rw
        (
          handle_recv,
          protocol_of-some se s held,
          new,
          whole,
          step,
          still,
          drop_of_append (length a) a b refl,
        )
        refl

  recv_completes :
      (se : Session S) (s s1 : S) (b : List ℕ)
      → se.protocol ≡ some s
      → se.recv_buf ≡ []
      → ops.is_established s ≡ false
      → ops.handshake s b ≡ ret (s1, length b, [])
      → ops.is_established s1 ≡ true
      → handle_recv m ops se b
        ≡ ret (record se { protocol = some s1; recv_buf = [] }, on_established ∷ [])
  unfolding handle_recv take_frames recv_frames recv_loop
  recv_completes se s s1 b held empty new step done =
      let whole : se.recv_buf ++ b ≡ b = ap (◌++ b) empty in
      rw (handle_recv, protocol_of-some se s held, new, whole, step, done, drop_all b, take_frames)
        refl

-- Where the peer's two messages arrive in two chunks, the second one establishes the session and
-- the handler is told. Where they arrive in one chunk, only the first is handled: the second stays
-- in the receive buffer, the protocol is not established and the handler is not told.
pub handle_recv-coalesced :
    {S : Type 0} (m : Build) (ops : Protocol S) (se : Session S) (s s1 s2 : S)
    (first second answer : List ℕ)
    → se.protocol ≡ some s
    → se.recv_buf ≡ []
    → ops.is_established s ≡ false
    → ops.is_established s1 ≡ false
    → ops.is_established s2 ≡ true
    → ops.handshake s first ≡ ret (s1, length first, answer)
    → ops.handshake s (first ++ second) ≡ ret (s1, length first, answer)
    → ops.handshake s1 second ≡ ret (s2, length second, [])
    → (apart together done : Session S) × (handle_recv m ops se first
        ≡ ret (apart, send_handshake answer))
      × (handle_recv m ops apart second ≡ ret (done, on_established ∷ []))
      × (done.protocol ≡ some s2)
      × (handle_recv m ops se (first ++ second) ≡ ret (together, send_handshake answer))
      × (together.recv_buf ≡ second)
      × (together.protocol ≡ some s1)
handle_recv-coalesced m ops se s s1 s2 first second answer held empty new still done step both
      last =
    (
      record se { protocol = some s1; recv_buf = [] },
      record se { protocol = some s1; recv_buf = second },
      record se { protocol = some s2; recv_buf = [] },
      ap (handle_recv m ops se) (sym (append-nil first))
          ∙ recv_answers m ops se s s1 first [] answer held empty new
              (ap (ops.handshake s) (append-nil first) ∙ step) still,
      recv_completes m ops (record se { protocol = some s1; recv_buf = [] }) s1 s2 second refl refl
          still last done,
      refl,
      recv_answers m ops se s s1 first second answer held empty new both still,
      refl,
      refl,
    )
