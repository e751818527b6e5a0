-- ===== src/Ensure/Blackboard.antt =====
-- play/ensure/blackboard.hpp. What is kept is of one type here, where the code casts.
use play.Common.{ℕ, ◌≡◌, Option, none, some, List}
use play.Common.Tests.{if◌then◌else◌}
use play.Common.Outcome.{Outcome, ret, faults}
use play.Common.Map.{or_some, find, insert, find-insert, nat_key, bytes_eq, bytes_key}

module _ {Mem : Type 0} where
  unfoldable pub set : List ℕ → Mem → List (List ℕ × Mem) → List (List ℕ × Mem)
  set key v memory = insert key v memory

  -- `get` and `get_ptr`; `none` is the null pointer.
  unfoldable pub get : List ℕ → List (List ℕ × Mem) → Option Mem
  get key memory = find key memory

  -- `get_obj` returns a reference, for a missing key to a temporary that is gone.
  unfoldable pub get_obj : List ℕ → List (List ℕ × Mem) → Outcome Mem
  get_obj key memory = elim (find key memory) [ none ↦ faults | some v ↦ ret v ]

  -- After a set, the key has its first value, and the other keys what they had.
  pub set-get :
      (key other : List ℕ) (v : Mem) (memory : List (List ℕ × Mem))
      → get other (set key v memory)
        ≡ (if bytes_eq key other then some (or_some (get key memory) v) else get other memory)
  unfolding set get
  set-get key other v memory = find-insert other key v memory
