-- ===== src/Net/Bytes.antt =====
-- Little-endian numbers: the two loops over bytes that play/net/util/serializer.hpp and
-- play/net/protocol/length_delimited.ipp both have.
use native.Mathlib.Nat.{pow-suc, div-add-mod}
use native.Mathlib.Numerals.{towards_suc}
use play.Common.{
  ℕ, zero, suc, ◌+◌, ◌*◌, ◌/◌, ◌%◌, ◌^◌, ◌≤◌, ◌<◌, bit_and, bit_or, ◌≡◌, refl, ap, ◌∙◌, List, [],
  ◌∷◌, ◌++◌, arith, length,
}
use play.Common.Bits.{bit_and_byte, bit_or_disjoint}

-- `for (i < n) { p[i] = v & 0xFF; v >>= 8; }`
unfoldable pub write_bytes : ℕ → ℕ → List ℕ
write_bytes zero v = []
write_bytes (suc n) v = bit_and v 0xff ∷ write_bytes n (v / 2 ^ 8)

-- `for (; i < i + n; ++i) v |= ((p[i] & 0xFF) << i * 8);` over bytes that are all there.
pub read_bytes : ℕ → ℕ → List ℕ → ℕ → ℕ
read_bytes zero i bs v = v
read_bytes (suc n) i [] v = v
read_bytes (suc n) i (b ∷ bs) v = read_bytes n (i + 1) bs (bit_or v (bit_and b 0xff * 2 ^ (i * 8)))

pub length-write_bytes : (n v : ℕ) → length (write_bytes n v) ≡ n
unfolding write_bytes
length-write_bytes zero v = refl
length-write_bytes (suc n) v = ap suc (length-write_bytes n (v / 2 ^ 8))

next_place : (i : ℕ) → 2 ^ ((i + 1) * 8) ≡ 256 * 2 ^ (i * 8)
next_place i =
    let e : (i + 1) * 8 ≡ i * 8 + 8 = omega arith in rw e (simp towards_suc (omega arith))

-- The value of the next byte in its place, and of what follows it.
split_byte : (u i : ℕ) → u * 2 ^ (i * 8) ≡ u % 256 * 2 ^ (i * 8) + u / 256 * 2 ^ ((i + 1) * 8)
split_byte u i = omega (
  arith,
  ap (λ (t : ℕ). t * 2 ^ (i * 8)) (div-add-mod u 256),
  ap (λ (t : ℕ). u / 256 * t) (next_place i),
)

join_byte :
    (v u i : ℕ)
    → v < 2 ^ (i * 8)
    → bit_or v (bit_and (bit_and u 0xff) 0xff * 2 ^ (i * 8)) ≡ v + u % 256 * 2 ^ (i * 8)
join_byte v u i h =
    let byte : bit_and (bit_and u 0xff) 0xff ≡ u % 256 =
      omega (arith, bit_and_byte u, bit_and_byte (bit_and u 0xff)) in
    rw byte (bit_or_disjoint (i * 8) v (u % 256) h)

join_byte-lt : (v u i : ℕ) → v < 2 ^ (i * 8) → v + u % 256 * 2 ^ (i * 8) < 2 ^ ((i + 1) * 8)
join_byte-lt v u i h = rw next_place (shift (2 ^ (i * 8)) (u % 256) h (omega arith))
  where
    shift : (p r : ℕ) → v < p → r < 256 → v + r * p < 256 * p
    shift p r hv hr = grind arith

read-write_from :
    (n i u v : ℕ) (rest : List ℕ)
    → u < 256 ^ n
    → v < 2 ^ (i * 8)
    → read_bytes n i (write_bytes n u ++ rest) v ≡ v + u * 2 ^ (i * 8)
unfolding read_bytes write_bytes
read-write_from zero i u v rest hu hv = let e : u ≡ 0 = omega arith in rw e (omega arith)
read-write_from (suc n) i u v rest hu hv = rw (join_byte v u i hv) (
    read-write_from n (i + 1) (u / 256) (v + u % 256 * 2 ^ (i * 8)) rest
      (omega (arith, pow-suc 256 n)) (join_byte-lt v u i hv)
    ∙ omega (arith, split_byte u i))

-- Reading back what was written gives the number, whatever stands behind it.
pub read-write :
    (n u : ℕ) (rest : List ℕ) → u < 256 ^ n → read_bytes n 0 (write_bytes n u ++ rest) 0 ≡ u
read-write n u rest h = read-write_from n 0 u 0 rest h (omega arith) ∙ omega arith

-- What is read is determined by the bytes that are read.
pub read_bytes-append :
    (n i v : ℕ) (bs rest : List ℕ)
    → n ≤ length bs
    → read_bytes n i (bs ++ rest) v ≡ read_bytes n i bs v
unfolding read_bytes
read_bytes-append zero i v bs rest h = refl
read_bytes-append (suc n) i v [] rest h = absurd (omega arith)
read_bytes-append (suc n) i v (b ∷ bs) rest h = read_bytes-append n (i + 1) _ bs rest (omega arith)
