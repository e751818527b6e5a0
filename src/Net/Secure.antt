-- ===== src/Net/Secure.antt =====
-- play/net/protocol/secure_protocol.hpp and .ipp, over libsodium. `width` is `sizeof(Topic)`. A flag
-- `codec` stands for `cipher_codec_`, which refers to the handshake and has no state of its own.
pub mod Exchange
pub mod Cipher
pub mod Messages
pub mod Agreement
pub mod Stream
pub mod Wire
pub mod Delivery
pub mod Tests
use play.Common.{
  ℕ, ◌+◌, ◌%◌, ◌^◌, Bool, true, false, not, ◌&&◌, ◌||◌, Option, none, some, List, [], ◌++◌,
}
use play.Common.Tests.{ltb, leb, ◌==◌, if◌then◌else◌}
use play.Common.Lists.{length, take, drop}
use play.Common.Outcome.{Outcome, ret, faults, ◌>>=◌, ◌>>◌, Build, play_check}
use play.Common.Map.{is_some}
use play.Net.Protocol.{Decoded, nothing}
use play.Net.Sodium.{Sodium}
use play.Net.Serializer.{serialize, serialize_bool, deserialize, deserialize_bool}
use play.Net.LengthDelimited.{length_field_size, encode as encode_length, decode as decode_length}
use play.Net.Secure.Exchange.{Handshake, prepare, on_handshake, init as init_handshake}
use play.Net.Secure.Cipher.{encode as encrypt_bytes, decode as decrypt_bytes}

pub record SecureProtocol : Type 0 where
  pub accepted : Bool
  pub connected : Bool
  pub closed : Bool
  pub handshake : Option Handshake
  pub codec : Bool

-- The constructor.
abbrev pub init : SecureProtocol
init = record {
  accepted = false;
  connected = false;
  closed = true;
  handshake = none;
  codec = false;
}

abbrev pub enc_field_size : ℕ
enc_field_size = 1

abbrev pub min_size : ℕ → ℕ
min_size width = length_field_size + width + enc_field_size

-- The checks with which `accepted()` and `connected()` begin.
unfoldable pub check_unused : Build → SecureProtocol → Outcome (Unit {0})
check_unused m p = do
  play_check m (not p.accepted)
  play_check m (not p.connected)
  play_check m p.closed
  play_check m (not (is_some p.handshake))
  play_check m (not p.codec)

-- The static buffer is empty again when the call returns.
unfoldable pub encode_handshake : Build → List ℕ → Outcome (List ℕ)
encode_handshake m src = do
  (size, send) ← encode_length m src []
  play_check m (size == length src + length_field_size)
  ret send

-- `seed` is the choice of the key pair. The bytes are to be sent.
unfoldable pub accept : Build → Sodium → ℕ → SecureProtocol → Outcome (SecureProtocol × List ℕ)
accept m na seed p = do
  check_unused m p
  let (h, key) = prepare na seed (init_handshake true)
  send ← encode_handshake m key
  ret (record p { accepted = true; closed = false; handshake = some h; codec = true }, send)

unfoldable pub connect : Build → Sodium → ℕ → SecureProtocol → Outcome (SecureProtocol × List ℕ)
connect m na seed p = do
  check_unused m p
  let (h, key) = prepare na seed (init_handshake false)
  send ← encode_handshake m key
  ret (record p { connected = true; closed = false; handshake = some h; codec = true }, send)

unfoldable pub close : SecureProtocol → SecureProtocol
close p = if p.closed then p else record p { closed = true }

abbrev pub has_established : Option Handshake → Bool
has_established none = false
has_established (some h) = h.established

unfoldable pub is_established : SecureProtocol → Bool
is_established p = not p.closed && has_established p.handshake

-- A call through `cipher_handshake_`.
unfoldable pub peer_handshake : SecureProtocol → Outcome Handshake
peer_handshake p = elim p.handshake [ none ↦ faults | some h ↦ ret h ]

-- A call through `cipher_codec_`.
unfoldable pub cipher : SecureProtocol → Outcome Handshake
cipher p = if p.codec then peer_handshake p else faults

-- The protocol, the bytes used, and the bytes to send.
unfoldable pub handshake :
    Build → Sodium → ℕ → List ℕ → SecureProtocol → List ℕ → Outcome (SecureProtocol × ℕ × List ℕ)
handshake m na seed nonce p src =
    let payload = decode_length src in
    if not (ltb 0 (length payload)) then ret (p, 0, []) else do
      h ← peer_handshake p
      (h', used_len, resp) ← on_handshake m na seed nonce h payload
      play_check m (used_len == length payload)
      let consumed_len = length payload + length_field_size
      let p' = record p { handshake = some h' }
      if not (ltb 0 (length resp))
          then play_check m h'.established >> ret (p', consumed_len, [])
          else do send ← encode_handshake m resp; ret (p', consumed_len, send)

-- The protocol, the length that `encode` returns, and the stream buffer.
unfoldable pub encode :
    Build
    → Sodium
    → ℕ
    → SecureProtocol
    → ℕ
    → List ℕ
    → List ℕ
    → Bool
    → Outcome (SecureProtocol × ℕ × List ℕ)
encode m na width p pic src dst encrypt = do
  play_check m (not p.closed)
  if p.closed || not (is_established p) then ret (p, 0, dst) else do
    let total_len = length src + (length_field_size + width + enc_field_size)
    topic ← serialize m width width pic
    len ← serialize m length_field_size length_field_size (length src % 2 ^ 32)
    let header = dst ++ (topic ++ (serialize_bool encrypt ++ len))
    if not encrypt then ret (p, total_len, header ++ src) else do
      h ← cipher p
      (h', enc_len, out) ← encrypt_bytes m na h src (length src)
      play_check m (enc_len == length src)
      ret (record p { handshake = some h' }, total_len, header ++ out)

unfoldable pub decode :
    Build → Sodium → ℕ → SecureProtocol → List ℕ → Outcome (SecureProtocol × Decoded)
decode m na width p src = if leb (length src) (min_size width) then ret (p, nothing) else do
  pic ← deserialize m width width src
  encrypt ← deserialize_bool m enc_field_size (drop width src)
  len ← deserialize m length_field_size length_field_size (drop enc_field_size (drop width src))
  let total_len = len + length_field_size + width + enc_field_size
  let payload = take len (drop length_field_size (drop enc_field_size (drop width src)))
  if ltb (length src) total_len then ret (p, nothing) else do
    if not encrypt
        then ret (p, record { consumed = total_len; frame = payload; topic = pic })
        else do
          h ← cipher p
          (h', used_len, frame) ← decrypt_bytes na h payload
          play_check m (used_len == len)
          ret (
            record p { handshake = some h' },
            record { consumed = total_len; frame = frame; topic = pic },
          )
