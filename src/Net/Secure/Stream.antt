-- ===== src/Net/Secure/Stream.antt =====
-- The secure protocol as a byte stream, from the time when its cipher is there.
use native.Mathlib.Decide.{dec_lt}
use play.Common.{
  ℕ, ◌+◌, ◌≤◌, ◌<◌, ◌≡◌, refl, sym, ap, ap₂, ◌∙◌, ◌⊎◌, inl, inr, Bool, true, false, not, some, List,
  [], ◌∷◌, ◌++◌, arith,
}
use play.Common.Tests.{
  ltb, ◌==◌, if◌then◌else◌, lt→ltb, le→leb, ge→ltb, gt→leb, ==_refl, Bool-cases,
}
use play.Common.Lists.{
  length, take, drop, length-append, length-drop, length-take_le, take-append_le, drop-append_le,
}
use play.Common.Outcome.{ret, ◌>>=◌, ◌>>◌, Build, play_check, play_check-true, ret-injective}
use play.Net.Bytes.{read_bytes, read_bytes-append}
use play.Net.Protocol.{Decoded, nothing, Streams}
use play.Net.Serializer.{deserialize_bool, deserialize_ret}
use play.Net.LengthDelimited.{length_field_size}
use play.Net.Sodium.{Sodium, IsSodium}
use play.Net.Secure.Exchange.{Handshake}
use play.Net.Secure.Cipher.{inc_rx_nonce, decode as decrypt_bytes}
use play.Net.Secure.{SecureProtocol, enc_field_size, min_size, peer_handshake, cipher, decode}

abbrev pub HasCipher : SecureProtocol → Type 0
HasCipher p = (h : Handshake) × (p.handshake ≡ some h) × (p.codec ≡ true)

-- The flag of a frame, and whether it is set.
abbrev pub is_set : List ℕ → Bool
is_set [] = false
is_set (b ∷ bs) = not (b == 0)

deserialize_bool_ret :
    (m : Build) (bs : List ℕ) → 0 < length bs → deserialize_bool m 1 bs ≡ ret (is_set bs)
unfolding deserialize_bool
deserialize_bool_ret m [] h = absurd (omega arith)
deserialize_bool_ret m (b ∷ bs) h = rw (play_check-true m) refl

abbrev pub after_flag : ℕ → List ℕ → List ℕ
after_flag width src = drop enc_field_size (drop width src)

unfoldable pub frame_length : ℕ → List ℕ → ℕ
frame_length width src = read_bytes length_field_size 0 (after_flag width src) 0

abbrev pub payload : ℕ → List ℕ → List ℕ
payload width src = take (frame_length width src) (drop length_field_size (after_flag width src))

-- The bytes begin with a whole frame.
abbrev pub IsWhole : ℕ → List ℕ → Type 0
IsWhole width src =
    (min_size width < length src)
    × (frame_length width src + length_field_size + width + enc_field_size ≤ length src)

length-after_flag :
    (width : ℕ) (src : List ℕ)
    → min_size width < length src
    → length (after_flag width src) + width + 1 ≡ length src
length-after_flag width src h =
    omega (arith, length-drop enc_field_size (drop width src), length-drop width src)

module _ (na : Sodium) (law : IsSodium na) where
  -- What is received from the bytes of a frame.
  unfoldable pub received :
      SecureProtocol → Handshake → ℕ → ℕ → Bool → ℕ → List ℕ → SecureProtocol × Decoded
  received p h width len encrypt pic bytes =
      if encrypt
      then (
        record p { handshake = some (inc_rx_nonce na h) },
        record {
          consumed = len + length_field_size + width + enc_field_size;
          frame = (law.xor_twice bytes h.rx_nonce h.rx_key).0;
          topic = pic;
        },
      )
      else (
        p,
        record {
          consumed = len + length_field_size + width + enc_field_size;
          frame = bytes;
          topic = pic;
        },
      )

  abbrev pub answer : SecureProtocol → Handshake → ℕ → List ℕ → SecureProtocol × Decoded
  answer p h width src =
      received p h width (frame_length width src) (is_set (drop width src))
        (read_bytes width 0 src 0) (payload width src)

  received_consumed :
      (p : SecureProtocol) (h : Handshake) (width len : ℕ) (encrypt : Bool) (pic : ℕ)
      (bytes : List ℕ)
      → (received p h width len encrypt pic bytes).1.consumed
        ≡ len + length_field_size + width + enc_field_size
  unfolding received
  received_consumed p h width len true pic bytes = refl
  received_consumed p h width len false pic bytes = refl

  received-HasCipher :
      (p : SecureProtocol) (h : Handshake) (width len : ℕ) (encrypt : Bool) (pic : ℕ)
      (bytes : List ℕ)
      → p.handshake ≡ some h
      → p.codec ≡ true
      → HasCipher (received p h width len encrypt pic bytes).0
  unfolding received
  received-HasCipher p h width len true pic bytes at_p c = (inc_rx_nonce na h, refl, c)
  received-HasCipher p h width len false pic bytes at_p c = (h, at_p, c)

  module _ (m : Build) (width : ℕ) (p : SecureProtocol) (h : Handshake)
      (at_p : p.handshake ≡ some h) (has : p.codec ≡ true) where
    held : cipher p ≡ ret h
    unfolding cipher peer_handshake
    held = rw (cipher, has, peer_handshake, at_p) refl

    decrypts :
        (bytes : List ℕ)
        → decrypt_bytes na h bytes
          ≡ ret (inc_rx_nonce na h, length bytes, (law.xor_twice bytes h.rx_nonce h.rx_key).0)
    unfolding decrypt_bytes
    decrypts bytes = rw (decrypt_bytes, (law.xor_twice bytes h.rx_nonce h.rx_key).1) refl

    decode_long :
        (src : List ℕ)
        → min_size width < length src
        → decode m na width p src ≡ (
            if ltb
              (length src)
              (frame_length width src + length_field_size + width + enc_field_size)
            then ret (p, nothing)
            else if not (is_set (drop width src))
            then ret (
              p,
              record {
                consumed = frame_length width src + length_field_size + width + enc_field_size;
                frame = payload width src;
                topic = read_bytes width 0 src 0;
              },
            )
            else do
              (h', used_len, frame) ← decrypt_bytes na h (payload width src)
              play_check m (used_len == frame_length width src)
              ret (
                record p { handshake = some h' },
                record {
                  consumed = frame_length width src + length_field_size + width + enc_field_size;
                  frame = frame;
                  topic = read_bytes width 0 src 0;
                },
              ))
    unfolding decode frame_length
    decode_long src long =
        let size = length-after_flag width src long in
        rw
          (
            decode,
            gt→leb (length src) (min_size width) long,
            deserialize_ret m width width src (omega arith) (omega arith),
            deserialize_bool_ret m (drop width src) (omega (arith, length-drop width src)),
            deserialize_ret m length_field_size length_field_size (after_flag width src)
                (omega arith) (omega arith),
            held,
          )
          refl

    pub decode_whole :
        (src : List ℕ) → IsWhole width src → decode m na width p src ≡ ret (answer p h width src)
    unfolding received
    decode_whole src whole = elim (Bool-cases (is_set (drop width src))) [
      | inl b ↦
          decode_long src whole.0
          ∙ rw
              (
                ge→ltb (length src)
                    (frame_length width src + length_field_size + width + enc_field_size) whole.1,
                b,
                decrypts (payload width src),
                payload_size,
                ==_refl (frame_length width src),
                play_check-true m,
              )
              refl
      | inr b ↦
          decode_long src whole.0
          ∙ rw
              (
                ge→ltb (length src)
                    (frame_length width src + length_field_size + width + enc_field_size) whole.1,
                b,
              )
              refl
    ]
      where
        payload_size : length (payload width src) ≡ frame_length width src
        payload_size =
            length-take_le (frame_length width src) (drop length_field_size (after_flag width src))
              (omega (
                arith,
                whole.1,
                length-after_flag width src whole.0,
                length-drop length_field_size (after_flag width src),
              ))

    -- `decode` answers the first frame where there is one, and nothing elsewhere.
    decode-cases :
        (src : List ℕ)
        → (IsWhole width src × (decode m na width p src ≡ ret (answer p h width src)))
          ⊎ (decode m na width p src ≡ ret (p, nothing))
    decode-cases src = elim (dec_lt (min_size width) (length src)) [
      | no short ↦
          inr (unfold decode in rw (le→leb (length src) (min_size width) (omega arith)) refl)
      | yes long ↦
          elim (dec_lt (length src)
            (frame_length width src + length_field_size + width + enc_field_size)) [
              | yes cut ↦ inr (
                  decode_long src long
                  ∙ rw
                      (lt→ltb (length src)
                        (frame_length width src + length_field_size + width + enc_field_size) cut)
                      refl)
              | no whole ↦
                  let w : IsWhole width src = (long, omega arith) in inl (w, decode_whole src w)
            ]
    ]

    step_cases :
        (src : List ℕ) (p' : SecureProtocol) (d : Decoded)
        → decode m na width p src ≡ ret (p', d)
        → (IsWhole width src × ((p', d) ≡ answer p h width src))
          ⊎ (◌≡◌ {A = SecureProtocol × Decoded} (p', d) (p, nothing))
    step_cases src p' d e = elim (decode-cases src) [
      | inl (whole, q) ↦ inl (whole, ret-injective (sym e ∙ q))
      | inr q ↦ inr (ret-injective (sym e ∙ q))
    ]

    step_size :
        (src : List ℕ) (p' : SecureProtocol) (d : Decoded)
        → (p', d) ≡ answer p h width src
        → d.consumed ≡ frame_length width src + length_field_size + width + enc_field_size
    step_size src p' d q =
        ap (λ t. t.1.consumed) q
        ∙ received_consumed p h width (frame_length width src) (is_set (drop width src))
            (read_bytes width 0 src 0) (payload width src)

  is_set-append : (bs more : List ℕ) → 0 < length bs → is_set (bs ++ more) ≡ is_set bs
  is_set-append [] more h = absurd (omega arith)
  is_set-append (b ∷ bs) more h = refl

  -- More bytes behind a whole frame change nothing about it.
  append-IsWhole :
      (p : SecureProtocol) (h : Handshake) (width : ℕ) (src more : List ℕ)
      → IsWhole width src
      → IsWhole width (src ++ more) × (answer p h width (src ++ more) ≡ answer p h width src)
  append-IsWhole p h width src more (long, whole) =
      let size = length-append src more in
      let behind_topic : drop width (src ++ more) ≡ drop width src ++ more =
        drop-append_le width src more (omega arith) in
      let behind_flag : after_flag width (src ++ more) ≡ after_flag width src ++ more =
        ap (drop enc_field_size) behind_topic
        ∙ drop-append_le enc_field_size (drop width src) more
            (omega (arith, length-drop width src)) in
      let room = length-after_flag width src long in
      let len : frame_length width (src ++ more) ≡ frame_length width src =
        unfold frame_length in
        rw (behind_flag) (read_bytes-append 4 0 0 (after_flag width src) more (omega arith)) in
      let flag : is_set (drop width (src ++ more)) ≡ is_set (drop width src) =
        ap is_set behind_topic
        ∙ is_set-append (drop width src) more (omega (arith, length-drop width src)) in
      let bytes : payload width (src ++ more) ≡ payload width src =
        ap₂ (λ n l. take n (drop length_field_size l)) len behind_flag
        ∙ ap (take (frame_length width src))
            (drop-append_le length_field_size (after_flag width src) more (omega arith))
        ∙ take-append_le (frame_length width src) (drop length_field_size (after_flag width src))
            more (omega (arith, length-drop length_field_size (after_flag width src))) in
      (
        (omega (arith, size), omega (arith, size, len)),
        λ i.
            received p h width (len i) (flag i)
              (read_bytes-append width 0 0 src more (omega arith) i) (bytes i),
      )

  -- With its cipher, on any bytes and in either build `decode` returns and keeps the cipher; a
  -- frame that it takes is there, and is found again when more bytes have come behind it; where it
  -- takes none, the state stays. libsodium does what it documents.
  pub decode-Streams : (m : Build) (width : ℕ) → Streams HasCipher (decode m na width)
  decode-Streams m width = record {
    returns = λ p src (h, at_p, has). elim (decode-cases m width p h at_p has src) [
      | inl (whole, q) ↦ (answer p h width src, q, received-HasCipher p h width _ _ _ _ at_p has)
      | inr q ↦ ((p, nothing), q, (h, at_p, has))
    ];
    waits = λ p p' src d (h, at_p, has) e z. elim (step_cases m width p h at_p has src p' d e) [
      | inl (whole, q) ↦ absurd (omega (arith, z, step_size m width p h at_p has src p' d q))
      | inr q ↦ ap (λ t. t.0) q
    ];
    takes = λ p p' src d (h, at_p, has) e pos. elim (step_cases m width p h at_p has src p' d e) [
      | inl (whole, q) ↦ omega (arith, whole.1, step_size m width p h at_p has src p' d q)
      | inr q ↦ absurd (omega (arith, pos, ap (λ t. t.1.consumed) q))
    ];
    stays = λ p p' src more d (h, at_p, has) e pos.
        elim (step_cases m width p h at_p has src p' d e) [
          | inl (whole, q) ↦
              let (w, same) = append-IsWhole p h width src more whole in
              decode_whole m width p h at_p has (src ++ more) w ∙ ap ret (same ∙ sym q)
          | inr q ↦ absurd (omega (arith, pos, ap (λ t. t.1.consumed) q))
        ];
  }
