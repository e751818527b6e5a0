-- ===== src/Net/Protocol.antt =====
-- What the session of play/net/session.ipp gets from the `decode` of its `Protocol` template
-- argument, and what a byte stream needs of it.
use play.Common.{ℕ, ◌≤◌, ◌<◌, ◌≡◌, List, [], ◌++◌, length}
use play.Common.Outcome.{Outcome, ret}

-- The tuple of `decode`: the bytes consumed, the payload and the topic. Nothing is consumed where
-- the bytes hold no whole frame.
pub record Decoded : Type 0 where
  pub consumed : ℕ
  pub frame : List ℕ
  pub topic : ℕ

abbrev pub nothing : Decoded
nothing = record { consumed = 0; frame = []; topic = 0 }

-- `decode` works on a stream, from the states in `Ready`: it returns and stays in them, takes no
-- more bytes than there are, and finds the same frame when more bytes have come behind it.
pub record Streams {S : Type 0} (Ready : S → Type 0) (decode : S → List ℕ → Outcome (S × Decoded))
    : Type 0 where
  pub returns :
      (s : S) (src : List ℕ) → Ready s → (r : S × Decoded) × (decode s src ≡ ret r) × Ready r.0
  pub waits :
      (s s' : S) (src : List ℕ) (d : Decoded)
      → Ready s
      → decode s src ≡ ret (s', d)
      → d.consumed ≡ 0
      → s' ≡ s
  pub takes :
      (s s' : S) (src : List ℕ) (d : Decoded)
      → Ready s
      → decode s src ≡ ret (s', d)
      → 0 < d.consumed
      → d.consumed ≤ length src
  pub stays :
      (s s' : S) (src more : List ℕ) (d : Decoded)
      → Ready s
      → decode s src ≡ ret (s', d)
      → 0 < d.consumed
      → decode s (src ++ more) ≡ ret (s', d)
