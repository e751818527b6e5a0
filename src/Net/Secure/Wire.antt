-- ===== src/Net/Secure/Wire.antt =====
-- One frame of an established secure session: the bytes that `encode` appends, and what `decode` of
-- the other side makes of them.
use play.Net.LengthDelimited.{length_field_size}
use play.Common.{
  ℕ, ◌+◌, ◌%◌, ◌^◌, ◌<◌, ◌≡◌, refl, sym, ap, ap₂, ◌∙◌, Bool, true, false, not, ◌&&◌, some, List,
  ◌++◌, append_assoc, arith,
}
use play.Common.Tests.{if◌then◌else◌, le→leb, ==_refl, some-injective}
use play.Common.Lists.{length, take, drop, length-append, take_of_append, drop_of_append}
use play.Common.Outcome.{ret, Build, play_check-true}
use play.Net.Bytes.{write_bytes, read_bytes, length-write_bytes, read-write}
use play.Net.Serializer.{serialize_bool, serialize_ret}
use play.Net.LengthDelimited.RoundTrip.{framed, length-framed}
use play.Net.Sodium.{Sodium, IsSodium}
use play.Net.Secure.Exchange.{Handshake}
use play.Net.Secure.Cipher.{inc_tx_nonce, inc_rx_nonce, encode as encrypt_bytes}
use play.Net.Secure.Agreement.{Paired}
use play.Net.Secure.Stream.{
  is_set, after_flag, frame_length, payload, IsWhole, received, decode_whole,
}
use play.Net.Secure.{
  SecureProtocol, enc_field_size, has_established, is_established, peer_handshake, cipher, encode,
  decode,
}

-- A frame's bytes.
pub wire : ℕ → ℕ → Bool → List ℕ → List ℕ
wire width pic encrypt body = write_bytes width pic ++ (serialize_bool encrypt ++ framed body)

pub length-wire :
    (width pic : ℕ) (encrypt : Bool) (body : List ℕ)
    → length (wire width pic encrypt body) ≡ length body + 4 + width + 1
unfolding wire serialize_bool
length-wire width pic encrypt body = omega (
  arith,
  length-append (write_bytes width pic) (serialize_bool encrypt ++ framed body),
  length-write_bytes width pic,
  length-framed body,
)

is_set-wire : (encrypt : Bool) (rest : List ℕ) → is_set (serialize_bool encrypt ++ rest) ≡ encrypt
unfolding serialize_bool
is_set-wire true rest = refl
is_set-wire false rest = refl

module _ (width pic : ℕ) (encrypt : Bool) (body rest : List ℕ) (hp : pic < 256 ^ width)
    (fits : length body < 2 ^ 32) where
  abbrev stream : List ℕ
  stream = wire width pic encrypt body ++ rest

  drop-wire : drop width stream ≡ serialize_bool encrypt ++ (framed body ++ rest)
  unfolding wire serialize_bool
  drop-wire =
      ap (drop width)
        (append_assoc (write_bytes width pic) (serialize_bool encrypt ++ framed body) rest)
      ∙ drop_of_append width (write_bytes width pic) _ (sym (length-write_bytes width pic))

  after_flag-wire : after_flag width stream ≡ framed body ++ rest
  unfolding serialize_bool
  after_flag-wire = ap (drop enc_field_size) drop-wire

  frame_length-wire : frame_length width stream ≡ length body
  unfolding frame_length framed
  frame_length-wire =
      ap (λ l. read_bytes 4 0 l 0)
        (after_flag-wire ∙ append_assoc (write_bytes 4 (length body)) body rest)
      ∙ read-write 4 (length body) (body ++ rest) fits

  payload-wire : payload width stream ≡ body
  unfolding framed
  payload-wire =
      ap₂ (λ n l. take n (drop 4 l)) frame_length-wire
        (after_flag-wire ∙ append_assoc (write_bytes 4 (length body)) body rest)
      ∙ ap (take (length body)) (
          drop_of_append 4 (write_bytes 4 (length body)) (body ++ rest)
            (sym (length-write_bytes 4 (length body))))
      ∙ take_of_append (length body) body rest refl

  topic-wire : read_bytes width 0 stream 0 ≡ pic
  unfolding wire
  topic-wire =
      ap (λ l. read_bytes width 0 l 0)
        (append_assoc (write_bytes width pic) (serialize_bool encrypt ++ framed body) rest)
      ∙ read-write width pic _ hp

  wire-IsWhole : 0 < length body → IsWhole width stream
  wire-IsWhole full =
      let size = length-append (wire width pic encrypt body) rest in
      let mine = length-wire width pic encrypt body in
      (omega (arith, size, mine), omega (arith, size, mine, frame_length-wire))

  module _ (n : Build) (na : Sodium) (law : IsSodium na) (q : SecureProtocol) (k : Handshake)
      (at_q : q.handshake ≡ some k) (has : q.codec ≡ true) where
    decode-wire :
        0 < length body
        → decode n na width q stream
          ≡ ret (received na law q k width (length body) encrypt pic body)
    decode-wire full =
        decode_whole na law n width q k at_q has stream (wire-IsWhole full)
        ∙ ap ret (λ i.
          received na law q k width (frame_length-wire i)
            ((ap is_set drop-wire ∙ is_set-wire encrypt (framed body ++ rest)) i) (topic-wire i)
            (payload-wire i))

module _ (na : Sodium) (law : IsSodium na) where
  -- The bytes that a payload is sent as, and the protocols after a frame.
  pub sent : Handshake → Bool → List ℕ → List ℕ
  sent h encrypt src = if encrypt then (law.xor_twice src h.tx_nonce h.tx_key).0 else src

  pub sender_after : SecureProtocol → Handshake → Bool → SecureProtocol
  sender_after p h encrypt =
      if encrypt then record p { handshake = some (inc_tx_nonce na h) } else p

  pub receiver_after : SecureProtocol → Handshake → Bool → SecureProtocol
  receiver_after q k encrypt =
      if encrypt then record q { handshake = some (inc_rx_nonce na k) } else q

  pub length-sent :
      (h : Handshake) (encrypt : Bool) (src : List ℕ) → length (sent h encrypt src) ≡ length src
  unfolding sent
  length-sent h true src = (law.xor_twice src h.tx_nonce h.tx_key).2
  length-sent h false src = refl

  pub after-Paired :
      (p q : SecureProtocol) (pair : Paired p q) (encrypt : Bool)
      → Paired (sender_after p pair.sender encrypt) (receiver_after q pair.receiver encrypt)
  unfolding sender_after receiver_after is_established
  after-Paired p q pair true =
      let est : has_established p.handshake ≡ pair.sender.established =
        ap has_established pair.from in
      record {
        sender = inc_tx_nonce na pair.sender;
        receiver = inc_rx_nonce na pair.receiver;
        sends = ap (λ b. not p.closed && b) (sym est) ∙ pair.sends;
        from = refl;
        from_codec = pair.from_codec;
        to = refl;
        to_codec = pair.to_codec;
        keys = pair.keys;
        nonces = ap na.increment pair.nonces;
      }
  after-Paired p q pair false = pair

  -- The header of a frame in front of bytes.
  header-wire :
      (width pic : ℕ) (encrypt : Bool) (dst src body : List ℕ)
      → length src < 2 ^ 32
      → length body ≡ length src
      → (dst
            ++ (write_bytes width pic
                ++ (serialize_bool encrypt ++ write_bytes length_field_size (length src % 2 ^ 32))))
          ++ body
        ≡ dst ++ wire width pic encrypt body
  unfolding wire framed
  header-wire width pic encrypt dst src body fits same =
      let len : length src % 2 ^ 32 ≡ length body = omega (arith, fits, same) in
      rw (len) (
        append_assoc dst _ body
        ∙ ap (dst ++◌) (
            append_assoc (write_bytes width pic) _ body
            ∙ ap (write_bytes width pic ++◌)
                (append_assoc (serialize_bool encrypt) (write_bytes 4 (length body)) body)))

  open_when_established : (p : SecureProtocol) → is_established p ≡ true → p.closed ≡ false
  unfolding is_established
  open_when_established p est = ground arith

  encrypts :
      (m : Build) (h : Handshake) (src : List ℕ)
      → encrypt_bytes m na h src (length src)
        ≡ ret (inc_tx_nonce na h, length src, (law.xor_twice src h.tx_nonce h.tx_key).0)
  unfolding encrypt_bytes
  encrypts m h src =
      rw
        (
          le→leb (length src) (length src) (omega arith),
          play_check-true m,
          (law.xor_twice src h.tx_nonce h.tx_key).1,
        )
        refl

  cipher_held :
      (p : SecureProtocol) (h : Handshake)
      → p.handshake ≡ some h
      → p.codec ≡ true
      → cipher p ≡ ret h
  unfolding cipher peer_handshake
  cipher_held p h at_p has = rw (has, at_p) refl

  -- On an established protocol `encode` appends a frame.
  pub encode-wire :
      (m : Build) (width pic : ℕ) (encrypt : Bool) (p : SecureProtocol) (h : Handshake)
      (src dst : List ℕ)
      → is_established p ≡ true
      → p.handshake ≡ some h
      → p.codec ≡ true
      → length src < 2 ^ 32
      → encode m na width p pic src dst encrypt
        ≡ ret (
          sender_after p h encrypt,
          length src + (length_field_size + width + enc_field_size),
          dst ++ wire width pic encrypt (sent h encrypt src),
        )
  unfolding sender_after sent encode
  encode-wire m width pic true p h src dst est at_p has fits =
      simp (encode, est, open_when_established p est, play_check-true m)
        (rw
          (
            serialize_ret m width width pic (omega arith),
            serialize_ret m length_field_size length_field_size (length src % 2 ^ 32) (omega arith),
            cipher_held p h at_p has,
            encrypts m h src,
            ==_refl (length src),
            play_check-true m,
          )
          (ap
            (λ l. ret (
              record p { closed = false; handshake = some (inc_tx_nonce na h) },
              length src + (length_field_size + width + enc_field_size),
              l,
            ))
            (header-wire width pic true dst src (sent h true src) fits (length-sent h true src))))
  encode-wire m width pic false p h src dst est at_p has fits =
      simp (encode, est, open_when_established p est, play_check-true m)
        (rw
          (
            serialize_ret m width width pic (omega arith),
            serialize_ret m length_field_size length_field_size (length src % 2 ^ 32) (omega arith),
          )
          (ap
            (λ l. ret (
              sender_after p h false,
              length src + (length_field_size + width + enc_field_size),
              l,
            ))
            (header-wire width pic false dst src src fits refl)))

  pub decode-sent :
      (n : Build) (width pic : ℕ) (encrypt : Bool) (src rest : List ℕ) (p q : SecureProtocol)
      (pair : Paired p q)
      → pic < 256 ^ width
      → 0 < length src
      → length src < 2 ^ 32
      → decode n na width q (wire width pic encrypt (sent pair.sender encrypt src) ++ rest)
        ≡ ret (
          receiver_after q pair.receiver encrypt,
          record { consumed = length src + 4 + width + 1; frame = src; topic = pic },
        )
  unfolding sent receiver_after received
  decode-sent n width pic true src rest p q pair hp full fits =
      let size = length-sent pair.sender true src in
      let back : (law.xor_twice (sent pair.sender true src) pair.receiver.rx_nonce
            pair.receiver.rx_key).0
          ≡ src =
        some-injective (
          sym
            (law.xor_twice (sent pair.sender true src) pair.receiver.rx_nonce
              pair.receiver.rx_key).1
          ∙ ap₂ (λ nonce key. na.chacha20_xor (sent pair.sender true src) nonce key)
              (sym pair.nonces) (sym pair.keys)
          ∙ (law.xor_twice src pair.sender.tx_nonce pair.sender.tx_key).3) in
      decode-wire width pic true (sent pair.sender true src) rest hp (omega (arith, size, fits)) n
        na law q pair.receiver pair.to pair.to_codec (omega (arith, size, full))
      ∙ ap₂
          (λ k l. ret (
            receiver_after q pair.receiver true,
            record { consumed = k + 4 + width + 1; frame = l; topic = pic },
          ))
          size back
  decode-sent n width pic false src rest p q pair hp full fits =
      decode-wire width pic false src rest hp fits n na law q pair.receiver pair.to pair.to_codec
        full
