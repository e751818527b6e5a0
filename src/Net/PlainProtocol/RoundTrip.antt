-- ===== src/Net/PlainProtocol/RoundTrip.antt =====
-- Frames on the wire: what `encode` appends, and what `decode` reads from the front of a stream.
use play.Net.Serializer.{
  serialize, deserialize, serialize_ret, serialize-release, serialize_short, deserialize_ret,
}
use play.Net.LengthDelimited.RoundTrip.{framed, encode-framed, length-framed, decode-framed}
use play.Common.{
  ℕ, ◌+◌, ◌^◌, ◌≤◌, ◌<◌, ◌≡◌, sym, ap, ◌∙◌, ◌⊎◌, inl, inr, true, false, ◌||◌, List, ◌++◌,
  append_assoc, arith, ◌==◌, lt→ltb, gt→leb, ==_iff, length, drop, length-append, drop_of_append,
}
use play.Common.Outcome.{ret, aborts, Build, debug, release, play_check, play_check-true}
use play.Net.Bytes.{write_bytes, read_bytes, length-write_bytes, read-write}
use play.Net.LengthDelimited.{length_field_size}
use play.Net.LengthDelimited.RoundTrip.{framed, encode-framed, length-framed, decode-framed}
use play.Net.LengthDelimited.{length_field_size, decode as decode_length}
use play.Net.PlainProtocol.{
  PlainProtocol, close, is_established, encode, decode_frame, decode, decode_with_codec,
}

-- A frame's bytes.
pub wire : ℕ → ℕ → List ℕ → List ℕ
wire width pic src = write_bytes width pic ++ framed src

-- The check in `serialize` is on the payload's length, and does nothing in a release build.
abbrev pub CanSerialize : Build → ℕ → List ℕ → Type 0
CanSerialize m width src = (m ≡ release) ⊎ (width ≤ length src)

topic_bytes :
    (m : Build) (width pic : ℕ) (src : List ℕ)
    → CanSerialize m width src
    → serialize m width (length src) pic ≡ ret (write_bytes width pic)
topic_bytes m width pic src (inl e) = rw e (serialize-release width (length src) pic)
topic_bytes m width pic src (inr fits) = serialize_ret m width (length src) pic fits

-- On an established protocol, a non-empty payload whose topic can be written is appended as a frame.
pub encode-wire :
    (m : Build) (width : ℕ) (p : PlainProtocol) (pic : ℕ) (src dst : List ℕ)
    → is_established p ≡ true
    → 0 < length src
    → CanSerialize m width src
    → encode m width p pic src dst
      ≡ ret (length_field_size + length src + width, dst ++ wire width pic src)
unfolding encode wire is_established
encode-wire m width p pic src dst est h can =
    let live : (p.closed ≡ false) × ((p.accepted || p.connected) ≡ true) = ground arith in
    let size : ((4 + length src) == (length src + 4)) ≡ true = (==_iff _ _).1 (omega arith) in
    rw
      (
        live.0,
        live.1,
        play_check-true,
        topic_bytes m width pic src can,
        encode-framed m src (dst ++ write_bytes width pic) h,
      )
      (rw (size, play_check-true)
        (ap (λ l. ret (length_field_size + length src + width, l))
          (append_assoc dst (write_bytes width pic) (framed src))))

pub length-wire :
    (width pic : ℕ) (src : List ℕ) → length (wire width pic src) ≡ width + 4 + length src
unfolding wire
length-wire width pic src = omega (
  arith,
  length-append (write_bytes width pic) (framed src),
  length-write_bytes width pic,
  length-framed src,
)

drop-wire :
    (width pic : ℕ) (src rest : List ℕ)
    → drop width (wire width pic src ++ rest) ≡ framed src ++ rest
unfolding wire
drop-wire width pic src rest = rw (append_assoc (write_bytes width pic) (framed src) rest) (
    drop_of_append width (write_bytes width pic) (framed src ++ rest)
      (sym (length-write_bytes width pic)))

read_topic :
    (width pic : ℕ) (src rest : List ℕ)
    → pic < 256 ^ width
    → read_bytes width 0 (wire width pic src ++ rest) 0 ≡ pic
unfolding wire
read_topic width pic src rest h =
    rw (append_assoc (write_bytes width pic) (framed src) rest)
      (read-write width pic (framed src ++ rest) h)

-- A whole frame at the front of a stream is decoded, in either build, whatever follows it.
pub decode-wire :
    (m : Build) (width pic : ℕ) (src rest : List ℕ)
    → pic < 256 ^ width
    → 0 < length src
    → length src < 2 ^ 32
    → decode_frame m width (wire width pic src ++ rest)
      ≡ ret (record { consumed = width + length_field_size + length src; frame = src; topic = pic })
unfolding decode_frame
decode-wire m width pic src rest hp h fits =
    let stream = wire width pic src ++ rest in
    let size : length stream ≡ width + 4 + length src + length rest =
      omega (arith, length-append (wire width pic src) rest, length-wire width pic src) in
    let topic : deserialize m width (length stream) stream ≡ ret pic =
      deserialize_ret m width (length stream) stream (omega arith) (omega arith)
      ∙ ap ret (read_topic width pic src rest hp) in
    let payload : decode_length (drop width stream) ≡ src =
      ap decode_length (drop-wire width pic src rest) ∙ decode-framed src rest fits in
    rw (gt→leb (length stream) (4 + width) (omega arith), topic, payload, lt→ltb 0 (length src) h)

-- What `encode` of an established protocol with its codec wrote to the end of a stream buffer is decoded as the
-- same topic and payload, whatever follows it, with as many bytes consumed as `encode` said it had
-- written. The topic has the topic's width, the payload is not empty and shorter than 4 GB and, in
-- a build with assertions, no shorter than the topic.
pub decode-encode :
    (m : Build) (width : ℕ) (p : PlainProtocol) (pic : ℕ) (src dst rest : List ℕ)
    → is_established p ≡ true
    → p.codec ≡ true
    → pic < 256 ^ width
    → 0 < length src
    → length src < 2 ^ 32
    → CanSerialize m width src
    → (total : ℕ) × (out : List ℕ) × (encode m width p pic src dst ≡ ret (total, dst ++ out))
      × (decode m width p (out ++ rest)
          ≡ ret (record { consumed = total; frame = src; topic = pic }))
      × (length out ≡ total)
decode-encode m width p pic src dst rest est codec hp h fits can = (
  length_field_size + length src + width,
  wire width pic src,
  encode-wire m width p pic src dst est h can,
  decode_with_codec m width p (wire width pic src ++ rest) codec
      ∙ decode-wire m width pic src rest hp h fits
      ∙ ap (λ n. ret (record { consumed = n; frame = src; topic = pic })) (omega arith),
  omega (arith, length-wire width pic src),
)

-- In a build with assertions `encode` of an established protocol aborts on a payload that is
-- shorter than the topic.
pub encode_short_aborts :
    (width : ℕ) (p : PlainProtocol) (pic : ℕ) (src dst : List ℕ)
    → is_established p ≡ true
    → length src < width
    → encode debug width p pic src dst ≡ aborts
unfolding encode is_established
encode_short_aborts width p pic src dst est h =
    let live : (p.closed ≡ false) × ((p.accepted || p.connected) ≡ true) = ground arith in
    rw (live.0, live.1, play_check-true, serialize_short width (length src) pic h)

close_lem : (p : PlainProtocol) → (close p).closed ≡ true
unfolding close
close_lem p = ground arith

-- After `closed()` nothing is written: a build with assertions ends, one without returns 0.
pub encode_closed :
    (width : ℕ) (p : PlainProtocol) (pic : ℕ) (src dst : List ℕ)
    → (encode debug width (close p) pic src dst ≡ aborts)
      × (encode release width (close p) pic src dst ≡ ret (0, dst))
unfolding encode play_check
encode_closed width p pic src dst =
    let shut : (close p).closed ≡ true = close_lem p in (rw shut, rw shut)
