-- ===== src/Base/Snowflake.antt =====
-- play/base/dynamic_snowflake.hpp. The clock is outside the code: each call of `next` takes the
-- milliseconds since the start as an argument. `seq_` is a `uint32_t`, kept between calls.
pub mod Tests
pub mod Unique
use play.Common.{ℕ, ◌+◌, ◌*◌, ◌%◌, ◌^◌, bit_and, bit_or, List, [], ◌∷◌}

-- `elapsed << 24` on 64 bits, then `& 0xFFFFFFFF`.
pub half : ℕ → ℕ
half elapsed = bit_and (elapsed * 2 ^ 24 % 2 ^ 64) 0xffff_ffff

-- The new `seq_` and the id that is returned.
pub next : ℕ → ℕ → ℕ × ℕ
unfolding half
next seq elapsed = let seq' = (seq + 1) % 2 ^ 32 in (seq', bit_or (half elapsed) seq')

-- The ids of a row of calls, one for each reading of the clock.
pub run : ℕ → List ℕ → List ℕ
run seq [] = []
run seq (t ∷ ts) = (next seq t).1 ∷ run (next seq t).0 ts
