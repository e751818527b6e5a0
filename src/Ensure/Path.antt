-- ===== src/Ensure/Path.antt =====
-- The paths of acts in play/ensure/act_ensure.cpp. A `std::string` is the list of its bytes.
pub mod Names
pub mod Children
pub mod Tests
use play.Common.{ℕ, ◌+◌, Bool, false, not, Option, none, some, List, [], ◌∷◌, ◌++◌}
use play.Common.Tests.{leb, ◌==◌, if◌then◌else◌}
use play.Common.Lists.{length, is_empty, take, drop}
use play.Common.Outcome.{Outcome, ret, throws, faults, ◌>>=◌, ◌>>◌, Build, play_check}
use play.Common.Map.{bytes_eq}
use play.Base.StringUtil.{split}

-- '/'
abbrev pub slash : ℕ
slash = 47

pub record ActPath : Type 0 where
  pub full_path : List ℕ
  pub parts : List (List ℕ)
  pub act_name : List ℕ

-- `back()` of a vector.
abbrev pub back : List (List ℕ) → Option (List ℕ)
back [] = none
back (p ∷ []) = some p
back (p ∷ q ∷ ps) = back (q ∷ ps)

unfoldable pub setup : List ℕ → Outcome ActPath
setup full =
    let parts = split full (slash ∷ []) in
    elim (back parts) [
      | none ↦ throws
      | some name ↦ ret (record { full_path = full; parts = parts; act_name = name })
    ]

abbrev pub is_absolute_path : List ℕ → Bool
is_absolute_path [] = false
is_absolute_path (c ∷ path) = c == slash

abbrev pub is_relative_path : List ℕ → Bool
is_relative_path [] = false
is_relative_path (c ∷ path) = not (c == slash)

-- `back()` of an empty vector is undefined.
unfoldable pub get_last_act : Build → List ℕ → Outcome (List ℕ)
get_last_act m path = do
  play_check m (not (is_empty path))
  elim (back (split path (slash ∷ []))) [ none ↦ faults | some name ↦ ret name ]

abbrev pub is_child_of : List ℕ → List ℕ → Bool
is_child_of self path = bytes_eq (take (length self) path) self

-- `substr` throws for a position behind the end.
unfoldable pub substr : List ℕ → ℕ → Outcome (List ℕ)
substr s pos = if leb pos (length s) then ret (drop pos s) else throws

unfoldable pub get_child_path : List ℕ → List ℕ → Outcome (List ℕ)
get_child_path self path = if is_child_of self path then substr path (length self + 1) else ret []

unfoldable pub get_first_act : List ℕ → Outcome (List ℕ)
get_first_act path =
    if is_empty path
    then ret []
    else do p ← setup path; elim p.parts [ [] ↦ faults | name ∷ names ↦ ret name ]

-- The loop over the parts behind the first, and the last one.
abbrev pub join_acts : List (List ℕ) → List ℕ
join_acts [] = []
join_acts (p ∷ []) = p
join_acts (p ∷ q ∷ ps) = p ++ (slash ∷ join_acts (q ∷ ps))

unfoldable pub pop_head_act : List ℕ → Outcome (List ℕ)
pop_head_act path = do
  p ← setup path
  if leb (length p.parts) 1 then ret [] else ret (join_acts (drop 1 p.parts))

-- The two loops of `build_path`: the names of the ancestors, the nearest first, go to a stack, and
-- from the stack to the path.
abbrev pub push_all : List (List ℕ) → List (List ℕ) → List (List ℕ)
push_all [] stack = stack
push_all (name ∷ names) stack = push_all names (name ∷ stack)

abbrev pub append_all : List ℕ → List (List ℕ) → List ℕ
append_all full [] = full
append_all full (name ∷ stack) = append_all ((full ++ name) ++ (slash ∷ [])) stack

unfoldable pub build_path : List (List ℕ) → List ℕ → Outcome ActPath
build_path ancestors name = setup (append_all (slash ∷ []) (push_all ancestors []) ++ name)
