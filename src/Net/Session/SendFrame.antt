-- ===== src/Net/Session/SendFrame.antt =====
-- `send` with a topic of play/net/session.ipp, over the protocol's `encode`: it appends a frame to
-- the buffer that collects. The data pointer is not null.
use play.Common.{ℕ, ◌*◌, ◌<◌, ◌≡◌, refl, Bool, true, false, not, Option, none, List, arith}
use play.Common.Tests.{ltb, leb, ◌==◌, if◌then◌else◌, lt→ltb, gt→leb, ==_iff}
use play.Common.Lists.{length}
use play.Common.Outcome.{
  Outcome, ret, aborts, throws, faults, ◌>>=◌, ◌>>◌, Build, play_check, play_check-true,
}
use play.Net.PlainProtocol.{PlainProtocol, is_established, encode}
use play.Net.PlainProtocol.RoundTrip.{wire, CanSerialize, encode-wire}
use play.Net.Session.Send.{Sender, send_buf, set_send_buf, start_send, send}

abbrev pub max_send_size : ℕ
max_send_size = 1024 * 1024

-- The sender, the bytes of a call of `async_send`, the value returned, and whether the session's
-- `close()` was called.
pub record Sent : Type 0 where
  pub sender : Sender
  pub issued : Option (List ℕ)
  pub accepted : Bool
  pub closes : Bool

abbrev pub refused : Sender → Sent
refused s = record { sender = s; issued = none; accepted = false; closes = false }

-- Behind `encode`: the buffer as it left it. If it threw, the session closes.
encoded : Build → Sender → Outcome (List ℕ) → Outcome Sent
unfolding set_send_buf start_send
encoded m s (ret buf) =
    let s' = set_send_buf s s.acc_buf_index buf in
    let started = start_send m s' in
    (if not s'.sending then started else ret (s', none)) >>= λ r.
    ret (record { sender = r.0; issued = r.1; accepted = true; closes = false })
encoded m s aborts = aborts
encoded m s throws = ret (record { sender = s; issued = none; accepted = false; closes = true })
encoded m s faults = faults

module _ (m : Build) (encode : ℕ → List ℕ → List ℕ → Outcome (List ℕ)) where
  unfoldable pub send_frame : Bool → Sender → ℕ → List ℕ → Outcome Sent
  unfolding encoded send_buf
  send_frame is_open s pic bytes =
      if not is_open
      then ret (refused s)
      else if leb max_send_size (length bytes)
      then ret (refused s)
      else play_check m (ltb 0 (length bytes))
        >> (if length bytes == 0
            then ret (refused s)
            else encoded m s (encode pic bytes (send_buf s s.acc_buf_index)))

-- The plain protocol's `encode`, as a session calls it.
abbrev pub plain_encode : Build → ℕ → PlainProtocol → ℕ → List ℕ → List ℕ → Outcome (List ℕ)
plain_encode m width p pic src dst = encode m width p pic src dst >>= λ r. ret r.1

-- On an open session with an established plain protocol, sending a frame that is not empty and
-- within the limit is sending the bytes of the frame; in a build with assertions the payload is no
-- shorter than the topic.
pub send_frame-send :
    (m : Build) (width : ℕ) (p : PlainProtocol) (s : Sender) (pic : ℕ) (src : List ℕ)
    → is_established p ≡ true
    → 0 < length src
    → length src < max_send_size
    → CanSerialize m width src
    → send_frame m (plain_encode m width p) true s pic src ≡ (
        send m true s (wire width pic src) >>= λ r.
        ret (record { sender = r.0; issued = r.1; accepted = true; closes = false }))
unfolding send_frame encoded send
send_frame-send m width p s pic src est full fits can =
    rw
      (
        gt→leb max_send_size (length src) fits,
        lt→ltb 0 (length src) full,
        play_check-true m,
        nonzero,
        encode-wire m width p pic src (send_buf s s.acc_buf_index) est full can,
      )
      refl
  where
    nonzero : (length src == 0) ≡ false
    nonzero = ground (arith, ==_iff (length src) 0)
