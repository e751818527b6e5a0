-- ===== src/Base/StringUtil.antt =====
-- play/base/string_util.hpp. A `std::string` is the list of its bytes.
pub mod Tests
pub mod Tokens
pub mod Split
use play.Common.{
  ℕ, zero, suc, ◌+◌, ◌-◌, Bool, false, ◌||◌, Option, none, some, List, [], ◌∷◌, ◌++◌, ltb, ◌==◌,
  if◌then◌else◌, length, take, drop,
}

pub one_of : ℕ → List ℕ → Bool
one_of c [] = false
one_of c (d ∷ ds) = (c == d) || one_of c ds

-- `find_first_of` over what stands from position `i` on; `none` is `npos`.
pub find_from : List ℕ → List ℕ → ℕ → Option ℕ
unfolding one_of
find_from [] ds i = none
find_from (c ∷ s) ds i = if one_of c ds then some i else find_from s ds (i + 1)

pub find_first_of : List ℕ → List ℕ → ℕ → Option ℕ
unfolding find_from
find_first_of s ds pos = find_from (drop pos s) ds pos

-- The `while` of `split`, over `ppos`, `cpos` and the result so far. Every round moves `ppos` on by
-- a byte at least, since a delimiter was found.
pub split_loop : ℕ → List ℕ → List ℕ → ℕ → Option ℕ → List (List ℕ) → List (List ℕ)
unfolding find_first_of
split_loop fuel s ds ppos none result =
    if ltb ppos (length s) then result ++ (drop ppos s ∷ []) else result
split_loop zero s ds ppos (some cpos) result = result
split_loop (suc fuel) s ds ppos (some cpos) result =
    let result' =
      if ltb ppos cpos then result ++ (take (cpos - ppos) (drop ppos s) ∷ []) else result in
    let ppos' = cpos + length ds in split_loop fuel s ds ppos' (find_first_of s ds ppos') result'

pub split : List ℕ → List ℕ → List (List ℕ)
unfolding split_loop find_first_of
split [] ds = []
split (c ∷ s) ds = split_loop (suc (length (c ∷ s))) (c ∷ s) ds 0 (find_first_of (c ∷ s) ds 0) []
