-- ===== src/Base/ObjectPool.antt =====
-- play/base/object_pool.hpp, at the level of addresses. `operator new` is outside the code: the
-- address that it would return is an argument of `construct`.
pub mod Tests
pub mod Reuse
use play.Common.{ℕ, ◌+◌, List, [], ◌∷◌, ◌++◌, length}

pub record ObjectPool : Type 0 where
  pub pool : List ℕ
  pub alloc_count : ℕ
  pub free_count : ℕ
  pub pool_size : ℕ

pub init : ObjectPool
init = record { pool = []; alloc_count = 0; free_count = 0; pool_size = 0 }

take_front : ObjectPool → ℕ → List ℕ → ℕ × ObjectPool
take_front s fresh [] = (fresh, s)
take_front s fresh (p ∷ rest) = (p, record s { pool = rest })

-- The oldest address of the pool is used again; only an empty pool asks for a new one.
pub construct : ObjectPool → ℕ → ℕ × ObjectPool
unfolding take_front
construct s fresh =
    let s' = record s { alloc_count = s.alloc_count + 1 } in take_front s' fresh s'.pool

-- The deleter of a shared pointer calls it with the object's address.
pub release : ObjectPool → ℕ → ObjectPool
release s p =
    let pool = s.pool ++ (p ∷ []) in
    record s { free_count = s.free_count + 1; pool = pool; pool_size = length pool }
