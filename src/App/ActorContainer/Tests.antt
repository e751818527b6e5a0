-- ===== src/App/ActorContainer/Tests.antt =====
-- A container with one actor, and a second one of the same name.
use play.Common.{◌≡◌, refl, true, none, some, [], ◌∷◌}
use play.Common.Map.{find, nat_key, bytes_key}
use play.App.ActorContainer.{Actor, standard, init, add, find_by_id, find_by_name, find_by_session}
use play.App.ActorContainer.Lookup.{Inv, add-Inv}

abbrev ann : Actor
ann = record { id = 1; name = 97 ∷ 110 ∷ []; session_key = 700; uuid = 5 }

init-Inv : Inv init
unfolding init find
init-Inv = record {
  ids = λ i a e. cc;
  by_name = record { sound = λ k i e. cc; complete = λ i a e. cc };
  by_session = record { sound = λ k i e. cc; complete = λ i a e. cc };
}

init_empty :
    (find_by_id init 1 ≡ none) × (find ann.name init.names ≡ none) × (find 700 init.sessions ≡ none)
unfolding init find find_by_id
init_empty = (refl, refl, refl)

add-Inv_example :
    ((add standard init ann).0 ≡ true)
    × Inv (add standard init ann).1
    × (find_by_id (add standard init ann).1 1 ≡ some ann)
    × (find_by_name (add standard init ann).1 ann.name ≡ some ann)
    × (find_by_session (add standard init ann).1 700 ≡ some ann)
add-Inv_example = add-Inv init ann init-Inv init_empty.0 init_empty.1 init_empty.2
