-- ===== src/Net/Sodium.antt =====
-- What play/net/protocol calls of libsodium, which is a parameter of the model, and what its
-- documentation says of these calls.
use play.Common.{ℕ, ◌+◌, ◌≡◌, Option, some, List}
use play.Common.Lists.{length}

-- The sizes that libsodium's headers define: `crypto_stream_chacha20_KEYBYTES`,
-- `crypto_stream_chacha20_NONCEBYTES` and `crypto_box_SEALBYTES`.
abbrev pub key_size : ℕ
key_size = 32

abbrev pub nonce_size : ℕ
nonce_size = 8

abbrev pub seal_size : ℕ
seal_size = 48

-- `crypto_kx_keypair`, `crypto_kx_server_session_keys`, `crypto_kx_client_session_keys`,
-- `crypto_box_seal`, `crypto_box_seal_open`, `crypto_stream_chacha20_xor` and `sodium_increment`.
-- A random choice is an argument, and a result other than 0 is `none`. A pair of keys is the public
-- and the secret one, or the one to receive and the one to transmit with.
pub record Sodium : Type 0 where
  pub keypair : ℕ → List ℕ × List ℕ
  pub server_session_keys : List ℕ → List ℕ → List ℕ → Option (List ℕ × List ℕ)
  pub client_session_keys : List ℕ → List ℕ → List ℕ → Option (List ℕ × List ℕ)
  pub box_seal : ℕ → List ℕ → List ℕ → List ℕ
  pub box_seal_open : List ℕ → List ℕ → List ℕ → Option (List ℕ)
  pub chacha20_xor : List ℕ → List ℕ → List ℕ → Option (List ℕ)
  pub increment : List ℕ → List ℕ

-- The keys of two generated pairs cross, a sealed box opens for the pair that it was sealed to, and
-- xor with the same stream twice gives the bytes back.
pub record IsSodium (na : Sodium) : Type 0 where
  pub length-pub_key : (seed : ℕ) → length (na.keypair seed).0 ≡ key_size
  pub session_keys :
      (a b : ℕ)
      → (rx : List ℕ) × (tx : List ℕ) × (na.server_session_keys
            (na.keypair a).0
            (na.keypair a).1
            (na.keypair b).0
          ≡ some (rx, tx))
        × (na.client_session_keys (na.keypair b).0 (na.keypair b).1 (na.keypair a).0
            ≡ some (tx, rx))
  pub length-box_seal :
      (seed : ℕ) (msg key : List ℕ) → length (na.box_seal seed msg key) ≡ seal_size + length msg
  pub box_seal_open-box_seal :
      (seed a : ℕ) (msg : List ℕ)
      → na.box_seal_open (na.box_seal seed msg (na.keypair a).0) (na.keypair a).0 (na.keypair a).1
        ≡ some msg
  pub xor_twice :
      (msg nonce key : List ℕ)
      → (out : List ℕ) × (na.chacha20_xor msg nonce key ≡ some out)
        × (length out ≡ length msg)
        × (na.chacha20_xor out nonce key ≡ some msg)
