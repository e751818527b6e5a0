-- ===== src/Net/PlainProtocol/Delivery.antt =====
-- From one session's accumulation buffer to the other's handler: every frame, once and in order.
use play.Common.{
  ℕ, ◌+◌, ◌^◌, ◌<◌, ◌≡◌, sym, ap, ◌∙◌, true, false, List, [], ◌∷◌, ◌++◌, append-nil, append_assoc,
  arith, length, drop, All, concat, drop_of_append,
}
use play.Net.LengthDelimited.{length_field_size}
use play.Common.Outcome.{Outcome, ret, ◌>>=◌, Build}
use play.Net.Protocol.{Decoded}
use play.Net.PlainProtocol.{PlainProtocol, is_established, encode, decode_with_codec}
use play.Net.PlainProtocol.RoundTrip.{wire, CanSerialize, encode-wire, length-wire, decode-wire}
use play.Net.PlainProtocol.Stream.{decode_step, decode_step-Streams}
use play.Net.Session.Receive.{recv_loop, recv_frames, feed}
use play.Net.Session.Chunks.{frames_takes, feed-concat}

-- The calls of `encode` that fill a stream buffer, for frames of a topic and a payload.
unfoldable pub encode_all :
    Build → ℕ → PlainProtocol → List (ℕ × List ℕ) → List ℕ → Outcome (List ℕ)
encode_all m width p [] dst = ret dst
encode_all m width p ((pic, src) ∷ fs) dst = do
  (total, dst') ← encode m width p pic src dst
  encode_all m width p fs dst'

pub wires : ℕ → List (ℕ × List ℕ) → List ℕ
wires width [] = []
wires width ((pic, src) ∷ fs) = wire width pic src ++ wires width fs

-- What a frame must be: its topic has the topic's width, and its payload is not empty and shorter
-- than 4 GB. A build with assertions takes no payload that is shorter than the topic.
abbrev pub IsFrame : Build → ℕ → ℕ × List ℕ → Type 0
IsFrame m width (pic, src) =
    (pic < 256 ^ width) × (0 < length src) × (length src < 2 ^ 32) × CanSerialize m width src

encode_all-wires :
    (m : Build) (width : ℕ) (p : PlainProtocol) (fs : List (ℕ × List ℕ)) (dst : List ℕ)
    → is_established p ≡ true
    → All (IsFrame m width) fs
    → encode_all m width p fs dst ≡ ret (dst ++ wires width fs)
unfolding encode_all wires
encode_all-wires m width p [] dst est h = ap ret (sym (append-nil dst))
encode_all-wires m width p ((pic, src) ∷ fs) dst est ((hp, full, fits, can), h) =
    rw (encode-wire m width p pic src dst est full can) (
      encode_all-wires m width p fs (dst ++ wire width pic src) est h
      ∙ ap ret (append_assoc dst (wire width pic src) (wires width fs)))

recv_frames-wires :
    (m n : Build) (width : ℕ) (p : PlainProtocol) (fs got : List (ℕ × List ℕ))
    → p.codec ≡ true
    → All (IsFrame m width) fs
    → recv_frames n (decode_step n width) p (wires width fs) got
      ≡ ret (record { state = p; frames = got ++ fs; rest = []; failed = false })
unfolding wires
recv_frames-wires m n width p [] got codec h =
    unfold recv_frames recv_loop in
    ap (λ l. ret (record { state = p; frames = l; rest = []; failed = false }))
      (sym (append-nil got))
recv_frames-wires m n width p ((pic, src) ∷ fs) got codec ((hp, full, fits, can), h) =
    let d : Decoded = record {
      consumed = width + length_field_size + length src;
      frame = src;
      topic = pic;
    } in
    let e : decode_step n width p (wire width pic src) ≡ ret (p, d) =
      unfold decode_step in
      rw (decode_with_codec n width p (wire width pic src) codec, ← append-nil (wire width pic src))
        (rw (decode-wire n width pic src [] hp full fits)) in
    let all : drop (width + length_field_size + length src) (wire width pic src) ≡ [] =
      ap (drop (width + length_field_size + length src)) (sym (append-nil (wire width pic src)))
      ∙ drop_of_append _ (wire width pic src) [] (omega (arith, length-wire width pic src)) in
    frames_takes n _ (decode_step n width) (decode_step-Streams n width) p p (wire width pic src)
      (wires width fs) got d codec e (omega arith) (omega (arith, length-wire width pic src)) full
    ∙ rw all (recv_frames-wires m n width p fs (got ++ ((pic, src) ∷ [])) codec h)
    ∙ ap (λ l. ret (record { state = p; frames = l; rest = []; failed = false }))
        (append_assoc got ((pic, src) ∷ []) fs)

-- An established side encodes any frames into an empty buffer without failing, and when the bytes
-- of that buffer reach another side that has its codec in any chunks, one at least, that side receives exactly these
-- frames, in order, and no byte is left over. Each side may be built with assertions or without. A
-- frame's topic has the topic's width and its payload is not empty and shorter than 4 GB; where the
-- encoder is built with assertions, the payload is no shorter than the topic.
pub feed-encode_all :
    (m n : Build) (width : ℕ) (p q : PlainProtocol) (fs : List (ℕ × List ℕ))
    (cut : List ℕ → List ℕ × List (List ℕ))
    → is_established p ≡ true
    → q.codec ≡ true
    → All (IsFrame m width) fs
    → ((bytes : List ℕ) → concat ((cut bytes).0 ∷ (cut bytes).1) ≡ bytes)
    → (out : List ℕ) × (encode_all m width p fs [] ≡ ret out)
      × (feed n (decode_step n width) q [] [] ((cut out).0 ∷ (cut out).1)
          ≡ ret (record { state = q; frames = fs; rest = []; failed = false }))
feed-encode_all m n width p q fs cut est codec h whole =
    let out = wires width fs in
    (
      out,
      encode_all-wires m width p fs [] est h,
      feed-concat n _ (decode_step n width) (decode_step-Streams n width) q [] [] (cut out).0
            (cut out).1 codec
          ∙ ap (λ t. recv_frames n (decode_step n width) q t []) (whole out)
          ∙ recv_frames-wires m n width q fs [] codec h,
    )
