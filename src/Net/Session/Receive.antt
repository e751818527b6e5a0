-- ===== src/Net/Session/Receive.antt =====
-- `recv_frames` of play/net/session.ipp, over the protocol's `decode`. The handler that gets the
-- frames is outside: the frames are returned in the order of the calls of `on_receive`.
use play.Common.{
  ℕ, zero, suc, Bool, true, false, List, [], ◌∷◌, ◌++◌, ltb, if◌then◌else◌, length, drop,
}
use play.Common.Outcome.{Outcome, ret, aborts, throws, faults, ◌>>=◌, ◌>>◌, Build, play_check}
use play.Net.Protocol.{Decoded}

-- `failed` says that the exception handler ran and closed the socket.
pub record Received (S : Type 0) : Type 0 where
  pub state : S
  pub frames : List (ℕ × List ℕ)
  pub rest : List ℕ
  pub failed : Bool

module _ {S : Type 0} (m : Build) (decode : S → List ℕ → Outcome (S × Decoded)) where
  -- The `while` loop over the receive buffer. Each round consumes a byte at least.
  unfoldable pub recv_loop : ℕ → S → List ℕ → List (ℕ × List ℕ) → Outcome (Received S)
  recv_loop zero s buf frames =
      ret (record { state = s; frames = frames; rest = buf; failed = false })
  recv_loop (suc fuel) s [] frames =
      ret (record { state = s; frames = frames; rest = []; failed = false })
  recv_loop (suc fuel) s (b ∷ bs) frames = elim (decode s (b ∷ bs)) [
    | ret (s', d) ↦ elim (ltb 0 d.consumed) [
      | true ↦
          play_check m (ltb 0 (length d.frame))
          >> recv_loop fuel s' (drop d.consumed (b ∷ bs)) (frames ++ ((d.topic, d.frame) ∷ []))
      | false ↦ ret (record { state = s'; frames = frames; rest = b ∷ bs; failed = false })
    ]
    | aborts ↦ aborts
    | throws ↦ ret (record { state = s; frames = frames; rest = b ∷ bs; failed = true })
    | faults ↦ faults
  ]

  unfoldable pub recv_frames : S → List ℕ → List (ℕ × List ℕ) → Outcome (Received S)
  recv_frames s buf frames = recv_loop (suc (length buf)) s buf frames

  -- `handle_recv` on an established protocol, for each of the chunks that the socket delivers: the
  -- chunk is committed to the receive buffer and the frames are taken. A closed socket delivers no
  -- more.
  unfoldable pub feed : S → List ℕ → List (ℕ × List ℕ) → List (List ℕ) → Outcome (Received S)
  feed s buf frames [] = ret (record { state = s; frames = frames; rest = buf; failed = false })
  feed s buf frames (c ∷ cs) = do
    r ← recv_frames s (buf ++ c) frames
    if r.failed then ret r else feed r.state r.rest r.frames cs
