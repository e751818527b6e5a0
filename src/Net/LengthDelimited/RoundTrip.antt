-- ===== src/Net/LengthDelimited/RoundTrip.antt =====
-- What `decode` makes of bytes that `encode` wrote, whole, in part, and with more behind them.
use play.Common.{
  ℕ, suc, ◌+◌, ◌^◌, ◌≤◌, ◌<◌, ◌≡◌, refl, sym, ap, ◌∙◌, inl, inr, List, [], ◌∷◌, ◌++◌, append-nil,
  append_assoc, arith, ltb, lt→ltb, le→leb, ge→ltb, gt→leb, Bool-cases, length, take, drop,
  length-append, take_of_append, drop_of_append,
}
use play.Common.Outcome.{ret, Build, play_check-true, ret-injective}
use play.Net.Bytes.{write_bytes, read_bytes, length-write_bytes, read-write, read_bytes-append}
use play.Net.LengthDelimited.{length_field_size, encode_into, encode, decode}

-- The bytes of a payload on the wire.
unfoldable pub framed : List ℕ → List ℕ
framed src = write_bytes length_field_size (length src) ++ src

-- In either build a non-empty payload is appended with its length field.
pub encode-framed :
    (m : Build) (src dst : List ℕ)
    → 0 < length src
    → encode m src dst ≡ ret (length_field_size + length src, dst ++ framed src)
unfolding encode framed
encode-framed m src dst h =
    let total = length_field_size + length src in
    rw (
      lt→ltb 0 (length src) h,
      play_check-true,
      encode_into,
      le→leb (length src) total (omega arith),
      le→leb total total (omega arith),
      play_check-true,
    )

pub length-framed : (src : List ℕ) → length (framed src) ≡ length_field_size + length src
unfolding framed
length-framed src =
    omega (arith, length-append (write_bytes 4 (length src)) src, length-write_bytes 4 (length src))

-- The length field in front of any bytes is read back.
read_framed :
    (src rest : List ℕ)
    → length src < 2 ^ 32
    → read_bytes length_field_size 0 (framed src ++ rest) 0 ≡ length src
unfolding framed
read_framed src rest h =
    rw (append_assoc (write_bytes length_field_size (length src)) src rest)
      (read-write length_field_size (length src) (src ++ rest) h)

drop-framed : (src rest : List ℕ) → drop length_field_size (framed src ++ rest) ≡ src ++ rest
unfolding framed
drop-framed src rest = rw (append_assoc (write_bytes length_field_size (length src)) src rest) (
    drop_of_append length_field_size (write_bytes length_field_size (length src)) (src ++ rest)
      (sym (length-write_bytes length_field_size (length src))))

-- A payload of less than 4 GB is read back, whatever stands behind it.
pub decode-framed : (src rest : List ℕ) → length src < 2 ^ 32 → decode (framed src ++ rest) ≡ src
unfolding decode
decode-framed src rest h =
    let whole : length (framed src ++ rest) ≡ 4 + length src + length rest =
      omega (arith, length-append (framed src) rest, length-framed src) in
    rw
      (
        ge→ltb (length (framed src ++ rest)) 4 (omega arith),
        read_framed src rest h,
        drop-framed src rest,
        le→leb (length src + 4) (length (framed src ++ rest)) (omega arith),
      )
      (take_of_append (length src) src rest refl)

-- What `encode` put into an empty stream buffer is decoded as the payload, whatever follows it,
-- and its length is the total that `encode` returned. The payload is not empty and shorter than 4
-- GB.
pub decode-encode_payload :
    (m : Build) (src rest out : List ℕ) (total : ℕ)
    → 0 < length src
    → length src < 2 ^ 32
    → encode m src [] ≡ ret (total, out)
    → (decode (out ++ rest) ≡ src) × (total ≡ length out)
decode-encode_payload m src rest out total h fits e =
    let same : (total, out) ≡ (length_field_size + length src, framed src) =
      ret-injective (sym e ∙ encode-framed m src [] h) in
    let bytes : out ≡ framed src = ap (λ p. p.1) same in
    (
      rw bytes (decode-framed src rest fits),
      omega (arith, ap (λ p. p.0) same, ap length bytes, length-framed src),
    )

-- A proper prefix of the frame of a payload shorter than 4 GB decodes to the empty buffer: nothing
-- is taken before it is whole.
pub decode_prefix :
    (src front back : List ℕ) (b : ℕ)
    → length src < 2 ^ 32
    → framed src ≡ front ++ (b ∷ back)
    → decode front ≡ []
unfolding decode
decode_prefix src front back b fits e = elim (Bool-cases (ltb (length front) 4)) [
  | inl short ↦ rw short
  | inr long ↦
      let have : 4 ≤ length front = ground arith in
      let whole : length front + suc (length back) ≡ 4 + length src =
        omega (arith, ap length e, length-append front (b ∷ back), length-framed src) in
      let len : read_bytes 4 0 front 0 ≡ length src =
        sym (read_bytes-append 4 0 0 front (b ∷ back) have)
        ∙ ap (λ l. read_bytes 4 0 l 0) (sym (e ∙ refl))
        ∙ ap (λ l. read_bytes 4 0 l 0) (sym (append-nil (framed src)))
        ∙ read_framed src [] fits in
      rw (long, len, gt→leb (length src + 4) (length front) (omega arith))
]

-- `decode` on any bytes: where they hold what their length field says, and where they do not.
pub decode_whole :
    (src : List ℕ)
    → read_bytes length_field_size 0 src 0 + length_field_size ≤ length src
    → decode src ≡ take (read_bytes length_field_size 0 src 0) (drop length_field_size src)
unfolding decode
decode_whole src h =
    rw (ge→ltb (length src) 4 (omega arith), le→leb (read_bytes 4 0 src 0 + 4) (length src) h)

pub decode_partial :
    (src : List ℕ)
    → length src < read_bytes length_field_size 0 src 0 + length_field_size
    → decode src ≡ []
unfolding decode
decode_partial src h = rw (gt→leb (read_bytes 4 0 src 0 + 4) (length src) h) (ground arith)
