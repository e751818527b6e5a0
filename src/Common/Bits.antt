-- ===== src/Common/Bits.antt =====
-- Masks and the joining of disjoint bit fields as arithmetic, for every width.
use Prim.Native.Nat.{
  ℕ, zero, suc, ◌+◌, ◌*◌, ◌/◌, ◌%◌, ◌-◌, ◌^◌, ◌≤◌, ◌<◌, min, max, bit_and, bit_or, digits,
  bit_and-bitwise, bit_or-bitwise,
}
use mathlib.Core.Path.{◌≡◌, refl, ap, ◌∙◌}
use native.Mathlib.Omega.{arith}
use native.Mathlib.Nat.{pow-suc}

-- The digits of a bitwise operation, on more rounds than the first number needs.
module _ (z : ℕ → ℕ) (op : ℕ → ℕ → ℕ) where
  one_round_more : (n a b : ℕ) → a ≤ n → digits z op (suc n) a b ≡ digits z op n a b
  one_round_more zero zero b h = refl
  one_round_more (suc n) zero b h = refl
  one_round_more zero (suc a) b h = absurd (omega arith)
  one_round_more (suc n) (suc a) b h =
      ap (λ (t : ℕ). t * 2 + op (suc a % 2) (b % 2))
        (one_round_more n (suc a / 2) (b / 2) (omega arith))

  rounds_more : (k a b : ℕ) → digits z op (k + a) a b ≡ digits z op a a b
  rounds_more zero a b = let e : 0 + a ≡ a = omega arith in ap (λ m. digits z op m a b) e
  rounds_more (suc k) a b =
      let e : suc k + a ≡ suc (k + a) = omega arith in
      ap (λ m. digits z op m a b) e ∙ one_round_more (k + a) a b (omega arith) ∙ rounds_more k a b

  enough_rounds : (n a b : ℕ) → a ≤ n → digits z op n a b ≡ digits z op a a b
  enough_rounds n a b h =
      let e : n ≡ (n - a) + a = omega arith in
      ap (λ m. digits z op m a b) e ∙ rounds_more (n - a) a b

-- The lowest digit of a conjunction, and the others.
bit_and_halves : (b a : ℕ) → bit_and a b ≡ min (a % 2) (b % 2) + 2 * bit_and (a / 2) (b / 2)
bit_and_halves b zero = omega (arith, bit_and-bitwise 0 b, bit_and-bitwise 0 (b / 2))
bit_and_halves b (suc a) =
    let below = enough_rounds (λ _. 0) min a (suc a / 2) (b / 2) (omega arith) in
    omega (arith, below, bit_and-bitwise (suc a / 2) (b / 2), bit_and-bitwise (suc a) b)

-- A mask that is one bit longer keeps one bit more.
mask_bit :
    (mask : ℕ) (f : ℕ → ℕ)
    → ((x : ℕ) → bit_and x mask ≡ f x)
    → (a : ℕ) → bit_and a (mask * 2 + 1) ≡ a % 2 + 2 * f (a / 2)
mask_bit mask f h a =
    let half : (mask * 2 + 1) / 2 ≡ mask = omega arith in
    let odd : (mask * 2 + 1) % 2 ≡ 1 = omega arith in
    omega (arith, bit_and_halves (mask * 2 + 1) a, odd, ap (bit_and (a / 2)) half, h (a / 2))

-- The same for four bits.
mask_digit :
    (mask : ℕ) (f : ℕ → ℕ)
    → ((x : ℕ) → bit_and x mask ≡ f x)
    → (a : ℕ) → bit_and a (mask * 16 + 15) ≡ a % 16 + 16 * f (a / 16)
mask_digit mask f h a =
    let one = mask_bit mask f h in
    let two = mask_bit (mask * 2 + 1) _ one in
    let three = mask_bit ((mask * 2 + 1) * 2 + 1) _ two in
    let four = mask_bit (((mask * 2 + 1) * 2 + 1) * 2 + 1) _ three a in
    let size : (((mask * 2 + 1) * 2 + 1) * 2 + 1) * 2 + 1 ≡ mask * 16 + 15 = omega arith in
    let top : a / 2 / 2 / 2 / 2 ≡ a / 16 = omega arith in
    omega (arith, ap (bit_and a) size, four, ap f top)

bit_and-zero : (n a : ℕ) → a ≤ n → bit_and a 0 ≡ 0
bit_and-zero n zero h = bit_and-bitwise 0 0
bit_and-zero zero (suc a) h = absurd (omega arith)
bit_and-zero (suc n) (suc a) h =
    omega (arith, bit_and-zero n (suc a / 2) (omega arith), bit_and_halves 0 (suc a))

digit : (a : ℕ) → bit_and a 0xf ≡ a % 16
digit a = omega (arith, mask_digit 0 (λ _. 0) (λ x. bit_and-zero x x (omega arith)) a)

-- `x & 0xFF`
pub bit_and_byte : (a : ℕ) → bit_and a 0xff ≡ a % 256
bit_and_byte a = omega (arith, mask_digit 0xf (λ x. x % 16) digit a)

three_digits : (a : ℕ) → bit_and a 0xfff ≡ a % 4096
three_digits a = omega (arith, mask_digit 0xff (λ x. x % 256) bit_and_byte a)

four_digits : (a : ℕ) → bit_and a 0xffff ≡ a % 65536
four_digits a = omega (arith, mask_digit 0xfff (λ x. x % 4096) three_digits a)

five_digits : (a : ℕ) → bit_and a 0xf_ffff ≡ a % 1048576
five_digits a = omega (arith, mask_digit 0xffff (λ x. x % 65536) four_digits a)

six_digits : (a : ℕ) → bit_and a 0xff_ffff ≡ a % 16777216
six_digits a = omega (arith, mask_digit 0xf_ffff (λ x. x % 1048576) five_digits a)

seven_digits : (a : ℕ) → bit_and a 0xfff_ffff ≡ a % 268435456
seven_digits a = omega (arith, mask_digit 0xff_ffff (λ x. x % 16777216) six_digits a)

-- `x & 0xFFFFFFFF`
pub bit_and_word : (a : ℕ) → bit_and a 0xffff_ffff ≡ a % 4294967296
bit_and_word a = omega (arith, mask_digit 0xfff_ffff (λ x. x % 268435456) seven_digits a)

pub zero-bit_or : (b : ℕ) → bit_or 0 b ≡ b
zero-bit_or b = bit_or-bitwise 0 b

-- The lowest digit of a disjunction, and the others.
bit_or_halves : (b a : ℕ) → bit_or a b ≡ max (a % 2) (b % 2) + 2 * bit_or (a / 2) (b / 2)
bit_or_halves b zero = omega (arith, zero-bit_or b, zero-bit_or (b / 2))
bit_or_halves b (suc a) =
    let below = enough_rounds (λ c. c) max a (suc a / 2) (b / 2) (omega arith) in
    omega (arith, below, bit_or-bitwise (suc a / 2) (b / 2), bit_or-bitwise (suc a) b)

-- `a | (b << k)` where `a` has no bit from `k` on.
pub bit_or_disjoint : (k a b : ℕ) → a < 2 ^ k → bit_or a (b * 2 ^ k) ≡ a + b * 2 ^ k
bit_or_disjoint zero zero b h = omega (arith, zero-bit_or (b * 2 ^ 0))
bit_or_disjoint zero (suc a) b h = absurd (omega arith)
bit_or_disjoint (suc k) a b h =
    let twice : b * 2 ^ suc k ≡ b * 2 ^ k * 2 =
      omega (arith, ap (λ (t : ℕ). b * t) (pow-suc 2 k)) in
    let half : b * 2 ^ k * 2 / 2 ≡ b * 2 ^ k = omega arith in
    let low : a / 2 < 2 ^ k = omega (arith, pow-suc 2 k) in
    rw (twice, bit_or_halves (b * 2 ^ k * 2) a, half, bit_or_disjoint k (a / 2) b low) (omega arith)

-- By induction on a bound of both numbers.
bit_or_comm_below : (n a b : ℕ) → a ≤ n → b ≤ n → bit_or a b ≡ bit_or b a
bit_or_comm_below zero a b ha hb =
    let ea : a ≡ 0 = omega arith in let eb : b ≡ 0 = omega arith in rw (ea, eb) refl
bit_or_comm_below (suc n) a b ha hb = omega (
  arith,
  bit_or_halves b a,
  bit_or_halves a b,
  bit_or_comm_below n (a / 2) (b / 2) (omega arith) (omega arith),
)

pub bit_or_comm : (a b : ℕ) → bit_or a b ≡ bit_or b a
bit_or_comm a b = bit_or_comm_below (a + b) a b (omega arith) (omega arith)
