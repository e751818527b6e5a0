-- ===== src/Base/ObjectPool/Tests.antt =====
-- A pool that constructs an object at address 100 and gets it back.
use mathlib.Core.List.{Mem, not-mem-nil, mem-singleton}
use native.Mathlib.Nat.{ℕ_set}
use play.Common.{◌+◌, ◌≡◌, refl, [], ◌∷◌, arith}
use play.Common.Lists.{length}
use play.Base.ObjectPool.{init, construct, release}
use play.Base.ObjectPool.Reuse.{
  World, owned, constructs, releases, Reach, start, step, Inv, Reach-Inv, construct-not-live,
  construct_stale_size,
}

abbrev empty_world : World
empty_world = record { pool = init; live = [] }

abbrev one_live : World
one_live = record { pool = (construct init 100).1; live = (construct init 100).0 ∷ [] }

abbrev one_released : World
one_released = record { pool = release one_live.pool (construct init 100).0; live = [] }

one_released-Reach : Reach one_released
unfolding init
one_released-Reach =
    step (step start (constructs empty_world 100 (not-mem-nil)))
      (releases one_live [] [] (construct init 100).0 refl)

Reach-Inv_example : Inv one_released
Reach-Inv_example = Reach-Inv one_released-Reach

other_address : ¬ Mem 200 (owned one_released)
unfolding init construct release
other_address = λ m. absurd (omega (arith, (mem-singleton ℕ_set).0 m))

constructed_again : ¬ Mem (construct one_released.pool 200).0 one_released.live
constructed_again = construct-not-live one_released 200 one_released-Reach other_address

one_released_pool : one_released.pool.pool ≡ 100 ∷ []
unfolding init construct release
one_released_pool = refl

one_released_size : one_released.pool.pool_size ≡ length one_released.pool.pool
unfolding init construct release
one_released_size = refl

reused_size :
    (construct one_released.pool 200).1.pool_size
    ≡ length (construct one_released.pool 200).1.pool + 1
reused_size = construct_stale_size one_released.pool 200 100 [] one_released_pool one_released_size
