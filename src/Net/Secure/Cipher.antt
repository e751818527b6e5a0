-- ===== src/Net/Secure/Cipher.antt =====
-- play/net/protocol/sodium_cipher.ipp: the cipher over the keys and nonces of a handshake.
use play.Common.{ℕ, not, none, some, List, ◌++◌}
use play.Common.Tests.{leb, if◌then◌else◌}
use play.Common.Lists.{length}
use play.Common.Outcome.{Outcome, ret, throws, faults, ◌>>=◌, ◌>>◌, Build, play_check}
use play.Net.Sodium.{Sodium}
use play.Net.Secure.Exchange.{Handshake}

-- `inc_tx_nonce` and `inc_rx_nonce`.
abbrev pub inc_tx_nonce : Sodium → Handshake → Handshake
inc_tx_nonce na h = record h { tx_nonce = na.increment h.tx_nonce }

abbrev pub inc_rx_nonce : Sodium → Handshake → Handshake
inc_rx_nonce na h = record h { rx_nonce = na.increment h.rx_nonce }

-- `encode` into a buffer of `size` bytes: the length it returns, and the bytes written.
unfoldable pub encode : Build → Sodium → Handshake → List ℕ → ℕ → Outcome (Handshake × ℕ × List ℕ)
encode m na h src size = do
  play_check m (leb (length src) size)
  if not (leb (length src) size) then faults else elim (na.chacha20_xor src h.tx_nonce h.tx_key) [
    | none ↦ throws
    | some out ↦ ret (inc_tx_nonce na h, length src, out)
  ]

-- `encode` into a stream buffer.
unfoldable pub encode_stream :
    Build → Sodium → Handshake → List ℕ → List ℕ → Outcome (Handshake × ℕ × List ℕ)
unfolding encode
encode_stream m na h src dst = do
  (h', size, out) ← encode m na h src (length src)
  ret (h', length src, dst ++ out)

-- `decode`, which writes the bytes over those it was given.
unfoldable pub decode : Sodium → Handshake → List ℕ → Outcome (Handshake × ℕ × List ℕ)
decode na h src = elim (na.chacha20_xor src h.rx_nonce h.rx_key) [
  | none ↦ throws
  | some out ↦ ret (inc_rx_nonce na h, length src, out)
]
