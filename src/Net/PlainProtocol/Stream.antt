-- ===== src/Net/PlainProtocol/Stream.antt =====
-- The plain protocol as a byte stream: frames that one side encodes are what the other receives.
use play.Net.LengthDelimited.RoundTrip.{decode_partial, decode_whole as decode_payload}
use play.Net.Serializer.{deserialize_ret}
use native.Mathlib.Decide.{dec_lt}
use play.Common.{
  ℕ, ◌+◌, ◌≤◌, ◌<◌, ◌≡◌, refl, sym, ap, ap₂, ◌∙◌, ◌⊎◌, inl, inr, true, List, [], ◌++◌, arith, ltb,
  if◌then◌else◌, lt→ltb, le→leb, gt→leb, length, take, drop, length-append, length-drop,
  length-take_le, take-append_le, drop-append_le,
}
use play.Common.Outcome.{Outcome, ret, ◌>>=◌, Build, ret-injective}
use play.Net.Bytes.{read_bytes, read_bytes-append}
use play.Net.Protocol.{Decoded, nothing, Streams}
use play.Net.LengthDelimited.{length_field_size, decode as decode_length}
use play.Net.PlainProtocol.{PlainProtocol, min_size, decode_frame, decode, decode_with_codec}

-- `decode` leaves the protocol's state as it is.
unfoldable pub decode_step : Build → ℕ → PlainProtocol → List ℕ → Outcome (PlainProtocol × Decoded)
unfolding decode
decode_step m width p src = do d ← decode m width p src; ret (p, d)

-- The length field of a stream's first frame, and the answer of `decode`.
frame_length : ℕ → List ℕ → ℕ
frame_length width src = read_bytes length_field_size 0 (drop width src) 0

-- The bytes begin with a whole frame whose payload is not empty.
abbrev IsWhole : ℕ → List ℕ → Type 0
IsWhole width src =
    (min_size width < length src)
    × (0 < frame_length width src)
    × (width + length_field_size + frame_length width src ≤ length src)

answer : ℕ → List ℕ → Decoded
answer width src = record {
  consumed = width + length_field_size + frame_length width src;
  frame = take (frame_length width src) (drop length_field_size (drop width src));
  topic = read_bytes width 0 src 0;
}

frame_size :
    (width : ℕ) (src : List ℕ)
    → IsWhole width src
    → length (answer width src).frame ≡ frame_length width src
unfolding answer
frame_size width src h =
    length-take_le (frame_length width src) (drop length_field_size (drop width src))
      (omega (arith, length-drop length_field_size (drop width src), length-drop width src))

decode_enough :
    (m : Build) (width : ℕ) (src : List ℕ)
    → min_size width < length src
    → decode_frame m width src
      ≡ ret (
          if ltb 0 (length (decode_length (drop width src)))
          then record {
            consumed = width + length_field_size + length (decode_length (drop width src));
            frame = decode_length (drop width src);
            topic = read_bytes width 0 src 0;
          }
          else nothing)
unfolding decode_frame
decode_enough m width src h = rw (
  gt→leb (length src) (4 + width) h,
  deserialize_ret m width (length src) src (omega arith) (omega arith),
)

decode_whole :
    (m : Build) (width : ℕ) (src : List ℕ)
    → IsWhole width src
    → decode_frame m width src ≡ ret (answer width src)
unfolding answer frame_length
decode_whole m width src h =
    let payload = decode_payload (drop width src) (omega (arith, length-drop width src)) in
    let size = frame_size width src h in
    rw
      (
        decode_enough m width src h.0,
        payload,
        lt→ltb 0 (length (take (read_bytes 4 0 (drop width src) 0) (drop 4 (drop width src))))
            (omega (arith, size)),
      )
      (ap
        (λ n. ret (record {
          consumed = width + length_field_size + n;
          frame = take (frame_length width src) (drop length_field_size (drop width src));
          topic = read_bytes width 0 src 0;
        }))
        size)

-- `decode` answers the first frame where there is one, and nothing elsewhere.
abbrev Cases : Build → ℕ → List ℕ → Type 0
Cases m width src =
    (IsWhole width src × (decode_frame m width src ≡ ret (answer width src)))
    ⊎ (decode_frame m width src ≡ ret nothing)

decode_empty :
    (m : Build) (width : ℕ) (src : List ℕ)
    → min_size width < length src
    → decode_length (drop width src) ≡ []
    → decode_frame m width src ≡ ret nothing
decode_empty m width src h e = rw (decode_enough m width src h, e)

no_payload :
    (width : ℕ) (src : List ℕ)
    → width + length_field_size ≤ length src
    → frame_length width src ≡ 0
    → decode_length (drop width src) ≡ []
unfolding frame_length
no_payload width src h e =
    decode_payload (drop width src) (omega (arith, length-drop width src))
    ∙ ap (λ n. take n (drop length_field_size (drop width src))) e

decode-Cases : (m : Build) (width : ℕ) (src : List ℕ) → Cases m width src
decode-Cases m width src = elim (dec_lt (min_size width) (length src)) [
  | no short ↦ inr (unfold decode_frame in rw (le→leb (length src) (4 + width) (omega arith)))
  | yes long ↦ elim (dec_lt (length src) (width + length_field_size + frame_length width src)) [
    | yes cut ↦ inr (
        decode_empty m width src long (
          unfold frame_length in
          decode_partial (drop width src) (omega (arith, length-drop width src))))
    | no whole ↦ elim (dec_lt 0 (frame_length width src)) [
      | yes full ↦
          let w : IsWhole width src = (long, full, omega arith) in
          inl (w, decode_whole m width src w)
      | no empty ↦
          inr (decode_empty m width src long (no_payload width src (omega arith) (omega arith)))
    ]
  ]
]

-- More bytes behind a whole frame change nothing about it.
append-IsWhole :
    (width : ℕ) (src more : List ℕ)
    → IsWhole width src
    → IsWhole width (src ++ more) × (answer width (src ++ more) ≡ answer width src)
unfolding answer
append-IsWhole width src more h =
    let size = length-append src more in
    let front : drop width (src ++ more) ≡ drop width src ++ more =
      drop-append_le width src more (omega arith) in
    let len : frame_length width (src ++ more) ≡ frame_length width src =
      unfold frame_length in
      rw front
        (read_bytes-append 4 0 0 (drop width src) more (omega (arith, length-drop width src))) in
    (
      (omega (arith, size), omega (arith, len), omega (arith, size, len)),
      λ i. record {
        consumed = width + length_field_size + len i;
        frame = frame front len i;
        topic = read_bytes-append width 0 0 src more (omega arith) i;
      },
    )
  where
    frame :
        drop width (src ++ more) ≡ drop width src ++ more
        → frame_length width (src ++ more) ≡ frame_length width src
        → (answer width (src ++ more)).frame ≡ (answer width src).frame
    frame front len =
        ap₂ (λ n l. take n (drop length_field_size l)) len front
        ∙ ap (take (frame_length width src)) (
            drop-append_le length_field_size (drop width src) more
              (omega (arith, length-drop width src)))
        ∙ take-append_le (frame_length width src) (drop length_field_size (drop width src)) more
            (omega (arith, length-drop length_field_size (drop width src), length-drop width src))

step_cases :
    (m : Build) (width : ℕ) (s s' : PlainProtocol) (src : List ℕ) (d : Decoded)
    → s.codec ≡ true
    → decode_step m width s src ≡ ret (s', d)
    → (s' ≡ s) × ((IsWhole width src × (d ≡ answer width src)) ⊎ (d ≡ nothing))
unfolding decode_step
step_cases m width s s' src d codec e = elim (decode-Cases m width src) [
  | inl (whole, q) ↦
      let p : ◌≡◌ {A = PlainProtocol × Decoded} (s, answer width src) (s', d) =
        ret-injective (rw (decode_with_codec m width s src codec, q) at e) in
      (sym (ap (λ t. t.0) p), inl (whole, sym (ap (λ t. t.1) p)))
  | inr q ↦
      let p : ◌≡◌ {A = PlainProtocol × Decoded} (s, nothing) (s', d) =
        ret-injective (rw (decode_with_codec m width s src codec, q) at e) in
      (sym (ap (λ t. t.0) p), inr (sym (ap (λ t. t.1) p)))
]

step_returns :
    (m : Build) (width : ℕ) (s : PlainProtocol) (src : List ℕ)
    → s.codec ≡ true
    → (r : PlainProtocol × Decoded) × (decode_step m width s src ≡ ret r) × (r.0.codec ≡ true)
unfolding decode_step
step_returns m width s src codec = elim (decode-Cases m width src) [
  | inl (whole, q) ↦
      ((s, answer width src), rw (decode_with_codec m width s src codec, q) refl, codec)
  | inr q ↦ ((s, nothing), rw (decode_with_codec m width s src codec, q) refl, codec)
]

step_takes :
    (m : Build) (width : ℕ) (s s' : PlainProtocol) (src : List ℕ) (d : Decoded)
    → s.codec ≡ true
    → decode_step m width s src ≡ ret (s', d)
    → 0 < d.consumed
    → (d.consumed ≤ length src) × (0 < length d.frame)
unfolding answer
step_takes m width s s' src d codec e pos = elim (step_cases m width s s' src d codec e).1 [
  | inl (whole, q) ↦ rw q (whole.2, omega (arith, frame_size width src whole, whole.1))
  | inr q ↦ absurd (omega (arith, ap (λ t. t.consumed) q))
]

step_stays :
    (m : Build) (width : ℕ) (s s' : PlainProtocol) (src more : List ℕ) (d : Decoded)
    → s.codec ≡ true
    → decode_step m width s src ≡ ret (s', d)
    → 0 < d.consumed
    → decode_step m width s (src ++ more) ≡ ret (s', d)
step_stays m width s s' src more d codec e pos =
    let (same, cases) = step_cases m width s s' src d codec e in
    elim cases [
      | inl (whole, q) ↦
          let more_whole = append-IsWhole width src more whole in
          unfold decode_step in
          rw (
            decode_with_codec m width s (src ++ more) codec,
            decode_whole m width (src ++ more) more_whole.0,
            more_whole.1,
            q,
            same,
          )
      | inr q ↦ absurd (omega (arith, ap (λ t. t.consumed) q))
    ]

-- A protocol that was accepted or connected has its codec.
abbrev pub HasCodec : PlainProtocol → Type 0
HasCodec p = p.codec ≡ true

pub decode_step-Streams : (m : Build) (width : ℕ) → Streams HasCodec (decode_step m width)
decode_step-Streams m width = record {
  returns = λ s src v. step_returns m width s src v;
  waits = λ s s' src d v e z. (step_cases m width s s' src d v e).0;
  takes = λ s s' src d v e pos. (step_takes m width s s' src d v e pos).0;
  stays = λ s s' src more d v e pos. step_stays m width s s' src more d v e pos;
}
