-- ===== src/Ensure/Path/Tests.antt =====
-- The paths of the act "b" below the acts "f" and "a".
use play.Common.{ℕ, ◌≡◌, refl, true, false, [], ◌∷◌}
use play.Common.Tests.{◌==◌}
use play.Common.Outcome.{ret, throws}
use play.Ensure.Path.{
  ActPath, is_absolute_path, is_child_of, get_child_path, get_first_act, join_acts, pop_head_act,
  build_path,
}
use play.Ensure.Path.Names.{IsName, build_path_lem, pop_head_act-join_acts}
use play.Ensure.Path.Children.{get_child_path_lem}

one_byte-IsName : (c : ℕ) → (c == 47) ≡ false → IsName (c ∷ [])
one_byte-IsName c other = (λ e. cc, (other, tt))

build_path_lem_test :
    (p : ActPath) × (build_path ((97 ∷ []) ∷ (102 ∷ []) ∷ []) (98 ∷ []) ≡ ret p)
    × (is_absolute_path p.full_path ≡ true)
    × (p.parts ≡ (102 ∷ []) ∷ (97 ∷ []) ∷ (98 ∷ []) ∷ [])
    × (p.act_name ≡ 98 ∷ [])
build_path_lem_test =
    build_path_lem ((97 ∷ []) ∷ (102 ∷ []) ∷ []) (98 ∷ [])
      (one_byte-IsName 97 refl, (one_byte-IsName 102 refl, tt)) (one_byte-IsName 98 refl)

pop_head_act-join_acts_test :
    (get_first_act (join_acts ((97 ∷ []) ∷ (98 ∷ []) ∷ [])) ≡ ret (97 ∷ []))
    × (pop_head_act (join_acts ((97 ∷ []) ∷ (98 ∷ []) ∷ [])) ≡ ret (98 ∷ []))
pop_head_act-join_acts_test =
    pop_head_act-join_acts (97 ∷ []) ((98 ∷ []) ∷ [])
      (one_byte-IsName 97 refl, (one_byte-IsName 98 refl, tt))

-- "/a", "/a/b", "/ab"
get_child_path_lem_test :
    (get_child_path (47 ∷ 97 ∷ []) (47 ∷ 97 ∷ 47 ∷ 98 ∷ []) ≡ ret (98 ∷ []))
    × (is_child_of (47 ∷ 97 ∷ []) (47 ∷ 97 ∷ 99 ∷ 98 ∷ []) ≡ true)
    × (get_child_path (47 ∷ 97 ∷ []) (47 ∷ 97 ∷ 99 ∷ 98 ∷ []) ≡ ret (98 ∷ []))
    × (is_child_of (47 ∷ 97 ∷ []) (47 ∷ 97 ∷ []) ≡ true)
    × (get_child_path (47 ∷ 97 ∷ []) (47 ∷ 97 ∷ []) ≡ throws)
get_child_path_lem_test = get_child_path_lem (47 ∷ 97 ∷ []) (98 ∷ []) 99
