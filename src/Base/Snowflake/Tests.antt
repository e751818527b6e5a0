-- ===== src/Base/Snowflake/Tests.antt =====
-- Runs of `next` on concrete readings of the clock.
use play.Common.{◌+◌, ◌^◌, ◌≡◌, refl, [], ◌∷◌, arith}
use play.Base.Snowflake.{half, next, run}
use play.Base.Snowflake.Unique.{Distinct, run-Distinct, next_repeats}

run-Distinct_example : Distinct (run 41 (0 ∷ 0 ∷ 256 ∷ []))
run-Distinct_example = run-Distinct 41 (0 ∷ 0 ∷ 256 ∷ []) (omega arith)

next_repeats_test : (next (7 + 2 ^ 24) 1024).1 ≡ (next 7 257).1
next_repeats_test = next_repeats 7 257 1024 (omega arith) refl refl

run_ids : run 41 (0 ∷ 1 ∷ 257 ∷ []) ≡ 42 ∷ 0x0100_002b ∷ 0x0100_002c ∷ []
unfolding run next half
run_ids = refl
