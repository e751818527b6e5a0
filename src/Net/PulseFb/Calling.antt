-- ===== src/Net/PulseFb/Calling.antt =====
-- What a call comes to, and which frames reach a receiver.
use play.Common.{ℕ, ◌≡◌, refl, ◌∙◌, inl, inr, Bool, false, List, [], ◌∷◌, ◌++◌}
use play.Common.Tests.{◌==◌, if◌then◌else◌, ==_refl, Bool-cases}
use play.Common.Outcome.{ret, Build, play_check-true}
use play.Net.Pulse.Calls.{Pulse, call_subscribe_reply, call_subscribe_closed, add_caller, call}
use play.Net.Pulse.Pending.{pending, pending-call}
use play.Net.PulseFb.{send_packed, call_fb}

call-ret :
    (m : Build) (p : Pulse) (req res cb : ℕ)
    → (p.session == 0) ≡ false
    → (q : Pulse) × (call m p req res cb ≡ ret q)
unfolding call
call-ret m p req res cb live = (
  add_caller (call_subscribe_reply (call_subscribe_closed p) res) req res cb,
  rw (live, play_check-true m) refl,
)

module _ {Obj : Type 0} (pack : Obj → List ℕ) (sends : ℕ → ℕ → List ℕ → Bool → Bool) where
  -- A call on a pulse with a session returns. Where the frame is sent, its callback joins the end of
  -- the queue of the request and is not run; where it is not sent, the callback is run at once and
  -- the queue stays as it was.
  pub call_fb_lem :
      (m : Build) (p : Pulse) (req res : ℕ) (obj : Obj) (cb : ℕ) (encrypt : Bool)
      → (p.session == 0) ≡ false
      → (q : Pulse) × (call_fb pack sends m p req res obj cb encrypt
          ≡ ret (q, if sends p.session req (pack obj) encrypt then [] else cb ∷ []))
        × (pending q req ≡ (
            if sends p.session req (pack obj) encrypt
            then pending p req ++ (cb ∷ [])
            else pending p req))
  unfolding call_fb send_packed
  call_fb_lem m p req res obj cb encrypt live =
      let called = call-ret m p req res cb live in
      elim (Bool-cases (sends p.session req (pack obj) encrypt)) [
        | inl sent ↦ (
          called.0,
          rw (live, sent, play_check-true m) (rw (called.1) refl),
          rw (sent) (pending-call m p req res cb req called.0 called.1 ∙ rw (==_refl req) refl),
        )
        | inr unsent ↦ (p, rw (live, unsent, play_check-true m) refl, rw (unsent) refl)
      ]
