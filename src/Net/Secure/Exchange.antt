-- ===== src/Net/Secure/Exchange.antt =====
-- play/net/protocol/sodium_handshake.hpp and .ipp: the exchange of public keys and nonces. An array
-- that was not written yet is empty.
use play.Common.{ℕ, ◌+◌, Bool, true, false, not, ◌||◌, Option, none, some, List, [], ◌∷◌, ◌++◌}
use play.Common.Tests.{ltb, leb, ◌==◌, if◌then◌else◌}
use play.Common.Lists.{length, take, drop}
use play.Common.Outcome.{Outcome, ret, throws, faults, ◌>>=◌, ◌>>◌, Build, play_check}
use play.Net.Sodium.{key_size, nonce_size, seal_size, Sodium}

pub record Handshake : Type 0 where
  pub accepted : Bool
  pub key_received : Bool
  pub nonce_received : Bool
  pub established : Bool
  pub pub_key : List ℕ
  pub sec_key : List ℕ
  pub peer_pub_key : List ℕ
  pub rx_key : List ℕ
  pub tx_key : List ℕ
  pub rx_nonce : List ℕ
  pub tx_nonce : List ℕ

-- The constructor.
abbrev pub init : Bool → Handshake
init accepted = record {
  accepted = accepted;
  key_received = false;
  nonce_received = false;
  established = false;
  pub_key = [];
  sec_key = [];
  peer_pub_key = [];
  rx_key = [];
  tx_key = [];
  rx_nonce = [];
  tx_nonce = [];
}

-- 'k' and 'n'.
abbrev pub key_mark : ℕ
key_mark = 107

abbrev pub nonce_mark : ℕ
nonce_mark = 110

abbrev pub nonce_exchange_size : ℕ
nonce_exchange_size = seal_size + nonce_size + 1

abbrev pub sync_key : Handshake → List ℕ
sync_key h = key_mark ∷ h.pub_key

abbrev pub sync_nonce : Sodium → ℕ → Handshake → List ℕ
sync_nonce na seed h = nonce_mark ∷ na.box_seal seed h.rx_nonce h.peer_pub_key

-- `seed` is the choice of `crypto_kx_keypair`.
abbrev pub prepare : Sodium → ℕ → Handshake → Handshake × List ℕ
prepare na seed h =
    let h' = record h { pub_key = (na.keypair seed).0; sec_key = (na.keypair seed).1 } in
    (h', sync_key h')

-- `data[0]`
abbrev pub first : List ℕ → Outcome ℕ
first [] = faults
first (b ∷ bs) = ret b

-- The branch of `on_handshake` where the key was received. The nonce is opened into an array of
-- `nonce_size` bytes.
unfoldable pub on_nonce : Build → Sodium → Handshake → List ℕ → Outcome (Handshake × ℕ × List ℕ)
on_nonce m na h src = do
  play_check m (not h.nonce_received)
  play_check m (not h.established)
  b ← first src
  play_check m (b == nonce_mark)
  elim (na.box_seal_open (drop 1 src) h.pub_key h.sec_key) [
    | none ↦ throws
    | some nonce ↦
        if leb (length nonce) nonce_size
        then ret (
          record h {
            nonce_received = true;
            established = true;
            tx_nonce = nonce ++ drop (length nonce) h.tx_nonce;
          },
          length src,
          [],
        )
        else faults
  ]

abbrev pub session_keys : Sodium → Handshake → List ℕ → Option (List ℕ × List ℕ)
session_keys na h peer =
    if h.accepted
    then na.server_session_keys h.pub_key h.sec_key peer
    else na.client_session_keys h.pub_key h.sec_key peer

-- The branch where it was not. `nonce` is what `randombytes_buf` gives, and `seed` the choice of
-- `crypto_box_seal`. `memcpy` reads `key_size` bytes.
unfoldable pub on_key :
    Build → Sodium → ℕ → List ℕ → Handshake → List ℕ → Outcome (Handshake × ℕ × List ℕ)
on_key m na seed nonce h src = do
  play_check m (not h.nonce_received)
  play_check m (not h.established)
  b ← first src
  play_check m (b == key_mark)
  let peer = take key_size (drop 1 src)
  if not (leb (key_size + 1) (length src)) then faults else elim (session_keys na h peer) [
    | none ↦ throws
    | some (rx, tx) ↦
        let h' = record h {
          key_received = true;
          peer_pub_key = peer;
          rx_key = rx;
          tx_key = tx;
          rx_nonce = nonce;
        } in
        ret (h', length src, sync_nonce na seed h')
  ]

-- The state, the bytes used, and the answer to send.
unfoldable pub on_handshake :
    Build → Sodium → ℕ → List ℕ → Handshake → List ℕ → Outcome (Handshake × ℕ × List ℕ)
unfolding on_nonce on_key
on_handshake m na seed nonce h src = do
  play_check m (ltb 0 (length src))
  play_check m ((length src == key_size + 1) || (length src == nonce_exchange_size))
  if h.key_received then on_nonce m na h src else on_key m na seed nonce h src
