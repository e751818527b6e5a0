-- ===== src/Net/StreamProtocol/Bypass.antt =====
-- Through a session of this protocol, each chunk of bytes is a frame of its own.
use play.Common.{
  ℕ, suc, ◌<◌, ◌≡◌, refl, sym, ap, ◌∙◌, false, List, [], ◌∷◌, ◌++◌, append-nil, append_assoc, arith,
}
use play.Common.Tests.{lt→ltb}
use play.Common.Lists.{length, All, drop_all}
use play.Common.Outcome.{ret, Build, play_check-true}
use play.Net.Session.Receive.{recv_loop, recv_frames, feed}
use play.Net.StreamProtocol.{StreamProtocol, decode}

abbrev IsFull : List ℕ → Type 0
IsFull c = 0 < length c

abbrev pub whole_chunks : List (List ℕ) → List (ℕ × List ℕ)
whole_chunks [] = []
whole_chunks (c ∷ cs) = (0, c) ∷ whole_chunks cs

recv_frames-chunk :
    (m : Build) (p : StreamProtocol) (c : List ℕ) (got : List (ℕ × List ℕ))
    → 0 < length c
    → recv_frames m decode p c got
      ≡ ret (record { state = p; frames = got ++ ((0, c) ∷ []); rest = []; failed = false })
unfolding recv_frames recv_loop decode
recv_frames-chunk m p [] got full = absurd (omega arith)
recv_frames-chunk m p (b ∷ bs) got full =
    rw (recv_frames, recv_loop, lt→ltb 0 (suc (length bs)) (omega arith))
      (rw (lt→ltb 0 (length (b ∷ bs)) (omega arith)) (rw (play_check-true m, drop_all bs) refl))

-- A session of the stream protocol gives its handler each chunk that the socket delivers as one
-- frame, with all of its bytes and in order, and keeps none. The chunks are not empty.
pub feed-whole_chunks :
    (m : Build) (p : StreamProtocol) (cs : List (List ℕ)) (got : List (ℕ × List ℕ))
    → All IsFull cs
    → feed m decode p [] got cs
      ≡ ret (record { state = p; frames = got ++ whole_chunks cs; rest = []; failed = false })
unfolding feed
feed-whole_chunks m p [] got full =
    ap (λ l. ret (record { state = p; frames = l; rest = []; failed = false }))
      (sym (append-nil got))
feed-whole_chunks m p (c ∷ cs) got (now, full) =
    rw (feed, recv_frames-chunk m p c got now)
      (feed-whole_chunks m p cs (got ++ ((0, c) ∷ [])) full
        ∙ ap (λ l. ret (record { state = p; frames = l; rest = []; failed = false }))
            (append_assoc got ((0, c) ∷ []) (whole_chunks cs)))
