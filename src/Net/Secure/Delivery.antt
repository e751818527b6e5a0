-- ===== src/Net/Secure/Delivery.antt =====
-- From one side of an established secure session to the other: every frame, in the clear or
-- encrypted, once and in order, with the nonces in step.
use play.Net.Session.Chunks.{frames_takes, feed-concat}
use play.Net.Session.Receive.{recv_loop, recv_frames, feed}
use play.Net.Protocol.{Decoded}
use play.Common.{
  ℕ, ◌+◌, ◌^◌, ◌<◌, ◌≡◌, sym, ap, ◌∙◌, Bool, false, List, [], ◌∷◌, ◌++◌, append-nil, append_assoc,
  arith,
}
use play.Common.Lists.{length, drop, All, concat, drop_of_append}
use play.Common.Outcome.{Outcome, ret, ◌>>=◌, Build}
use play.Net.Sodium.{Sodium, IsSodium}
use play.Net.Secure.Agreement.{Paired}
use play.Net.Secure.Stream.{HasCipher, decode-Streams}
use play.Net.Secure.{SecureProtocol, encode, decode}
use play.Net.Secure.Wire.{
  wire, length-wire, sent, sender_after, receiver_after, length-sent, after-Paired, encode-wire,
  decode-sent,
}

-- A frame to send: its topic, whether it is to be encrypted, and its payload.
abbrev pub Outgoing : Type 0
Outgoing = ℕ × Bool × List ℕ

-- The topic has the topic's width, and the payload is not empty and shorter than 4 GB.
abbrev pub IsFrame : ℕ → Outgoing → Type 0
IsFrame width (pic, encrypt, src) = (pic < 256 ^ width) × (0 < length src) × (length src < 2 ^ 32)

-- The calls of `encode` that fill a stream buffer.
unfoldable pub encode_all :
    Build → Sodium → ℕ → SecureProtocol → List Outgoing → List ℕ → Outcome (SecureProtocol × List ℕ)
encode_all m na width p [] dst = ret (p, dst)
encode_all m na width p ((pic, encrypt, src) ∷ fs) dst = do
  (p', total, dst') ← encode m na width p pic src dst encrypt
  encode_all m na width p' fs dst'

-- What the other side's handler gets of it.
abbrev pub plain : List Outgoing → List (ℕ × List ℕ)
plain [] = []
plain ((pic, encrypt, src) ∷ fs) = (pic, src) ∷ plain fs

module _ (na : Sodium) (law : IsSodium na) where
  -- All of the frames of a list: the protocols behind them, and the bytes.
  all_sent :
      ℕ
      → (p q : SecureProtocol) → Paired p q
      → List Outgoing
      → SecureProtocol × SecureProtocol × List ℕ
  all_sent width p q pair [] = (p, q, [])
  all_sent width p q pair ((pic, encrypt, src) ∷ fs) =
      let (p', q', bytes) =
        all_sent width (sender_after na law p pair.sender encrypt)
          (receiver_after na law q pair.receiver encrypt) (after-Paired na law p q pair encrypt)
          fs in
      (p', q', wire width pic encrypt (sent na law pair.sender encrypt src) ++ bytes)

  all_sent-Paired :
      (width : ℕ) (p q : SecureProtocol) (pair : Paired p q) (fs : List Outgoing)
      → Paired (all_sent width p q pair fs).0 (all_sent width p q pair fs).1
  unfolding all_sent
  all_sent-Paired width p q pair [] = pair
  all_sent-Paired width p q pair ((pic, encrypt, src) ∷ fs) =
      all_sent-Paired width (sender_after na law p pair.sender encrypt)
        (receiver_after na law q pair.receiver encrypt) (after-Paired na law p q pair encrypt) fs

  encode_all-all_sent :
      (m : Build) (width : ℕ) (p q : SecureProtocol) (pair : Paired p q) (fs : List Outgoing)
      (dst : List ℕ)
      → All (IsFrame width) fs
      → encode_all m na width p fs dst
        ≡ ret ((all_sent width p q pair fs).0, dst ++ (all_sent width p q pair fs).2)
  unfolding encode_all all_sent
  encode_all-all_sent m width p q pair [] dst ok = ap (λ l. ret (p, l)) (sym (append-nil dst))
  encode_all-all_sent m width p q pair ((pic, encrypt, src) ∷ fs) dst ((hp, full, fits), ok) =
      let rest =
        all_sent width (sender_after na law p pair.sender encrypt)
          (receiver_after na law q pair.receiver encrypt) (after-Paired na law p q pair encrypt)
          fs in
      rw
        (
          encode_all,
          encode-wire na law m width pic encrypt p pair.sender src dst pair.sends pair.from
              pair.from_codec fits,
        )
        (encode_all-all_sent m width (sender_after na law p pair.sender encrypt)
            (receiver_after na law q pair.receiver encrypt) (after-Paired na law p q pair encrypt)
            fs _ ok
          ∙ ap (λ l. ret (rest.0, l))
              (append_assoc dst (wire width pic encrypt (sent na law pair.sender encrypt src))
                rest.2))

  recv_frames-all_sent :
      (n : Build) (width : ℕ) (p q : SecureProtocol) (pair : Paired p q) (fs : List Outgoing)
      (got : List (ℕ × List ℕ))
      → All (IsFrame width) fs
      → recv_frames n (decode n na width) q (all_sent width p q pair fs).2 got
        ≡ ret (record {
          state = (all_sent width p q pair fs).1;
          frames = got ++ plain fs;
          rest = [];
          failed = false;
        })
  unfolding all_sent
  recv_frames-all_sent n width p q pair [] got ok =
      unfold recv_frames recv_loop in
      ap (λ l. ret (record { state = q; frames = l; rest = []; failed = false }))
        (sym (append-nil got))
  recv_frames-all_sent n width p q pair ((pic, encrypt, src) ∷ fs) got ((hp, full, fits), ok) =
      let d : Decoded = record {
        consumed = length src + 4 + width + 1;
        frame = src;
        topic = pic;
      } in
      let bytes = wire width pic encrypt (sent na law pair.sender encrypt src) in
      let size : length bytes ≡ length src + 4 + width + 1 = omega (
        arith,
        length-wire width pic encrypt (sent na law pair.sender encrypt src),
        length-sent na law pair.sender encrypt src,
      ) in
      let e : decode n na width q bytes ≡ ret (receiver_after na law q pair.receiver encrypt, d) =
        ap (decode n na width q) (sym (append-nil bytes))
        ∙ decode-sent na law n width pic encrypt src [] p q pair hp full fits in
      let later =
        all_sent width (sender_after na law p pair.sender encrypt)
          (receiver_after na law q pair.receiver encrypt) (after-Paired na law p q pair encrypt)
          fs in
      let all : drop (length src + 4 + width + 1) bytes ≡ [] =
        ap (drop (length src + 4 + width + 1)) (sym (append-nil bytes))
        ∙ drop_of_append _ bytes [] (omega (arith, size)) in
      frames_takes n HasCipher (decode n na width) (decode-Streams na law n width) q
        (receiver_after na law q pair.receiver encrypt) bytes later.2 got d
        (pair.receiver, pair.to, pair.to_codec) e (omega arith) (omega (arith, size)) full
      ∙ rw (all) (
          recv_frames-all_sent n width (sender_after na law p pair.sender encrypt)
            (receiver_after na law q pair.receiver encrypt) (after-Paired na law p q pair encrypt)
            fs (got ++ ((pic, src) ∷ [])) ok
          ∙ ap (λ l. ret (record { state = later.1; frames = l; rest = []; failed = false }))
              (append_assoc got ((pic, src) ∷ []) (plain fs)))

  -- If what one side transmits is what the other is ready to receive, the calls of `encode` for any
  -- frames return, each in the clear or encrypted; and when the bytes reach the other side in any
  -- chunks, one at least, it receives exactly these frames, in order and decrypted, with no byte
  -- left over, and is ready for what comes next. Each side may be built with assertions or without.
  -- A frame's topic has the topic's width and its payload is not empty and shorter than 4 GB;
  -- libsodium does what it documents.
  pub feed-encode_all_secure :
      (m n : Build) (width : ℕ) (p q : SecureProtocol) (fs : List Outgoing)
      (cut : List ℕ → List ℕ × List (List ℕ))
      → Paired p q
      → All (IsFrame width) fs
      → ((bytes : List ℕ) → concat ((cut bytes).0 ∷ (cut bytes).1) ≡ bytes)
      → (p' q' : SecureProtocol) × (out : List ℕ) × (encode_all m na width p fs [] ≡ ret (p', out))
        × (feed n (decode n na width) q [] [] ((cut out).0 ∷ (cut out).1)
            ≡ ret (record { state = q'; frames = plain fs; rest = []; failed = false }))
        × Paired p' q'
  feed-encode_all_secure m n width p q fs cut pair ok whole =
      let out = (all_sent width p q pair fs).2 in
      (
        _,
        _,
        out,
        encode_all-all_sent m width p q pair fs [] ok,
        feed-concat n HasCipher (decode n na width) (decode-Streams na law n width) q [] []
              (cut out).0 (cut out).1 (pair.receiver, pair.to, pair.to_codec)
            ∙ ap (λ t. recv_frames n (decode n na width) q t []) (whole out)
            ∙ recv_frames-all_sent n width p q pair fs [] ok,
        all_sent-Paired width p q pair fs,
      )
