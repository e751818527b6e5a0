-- ===== src/App/ActorContainer/Names.antt =====
-- Actors of one name, under any template arguments that link names.
use play.Common.{ℕ, ◌≡◌, ◌∙◌, true, none, some, List}
use play.Common.Map.{find, insert, find-insert_here, find-insert_keeps, nat_key, bytes_key}
use play.App.Index.{link, look_up-some, look_up-none}
use play.App.ActorContainer.{Actor, Has, ActorContainer, add, find_by_id, find_by_name}

module _ (has : Has) (named : has.name ≡ true) where
  -- An actor of a new id and name is found by its name.
  pub add_first :
      (c : ActorContainer) (a : Actor)
      → find a.id c.actors ≡ none
      → find a.name c.names ≡ none
      → find_by_name (add has c a).1 a.name ≡ some a
  unfolding add find_by_name link
  add_first c a new fresh =
      rw (new, named)
        (look_up-some a.name a.id (insert a.name a.id c.names) (insert a.id a c.actors)
            (find-insert_here a.name a.id c.names fresh)
          ∙ find-insert_here a.id a c.actors new)

  -- A second actor of the name is held, and the name still finds the first one.
  pub add_second :
      (c : ActorContainer) (a b : Actor)
      → find_by_id c a.id ≡ some a
      → find a.name c.names ≡ some a.id
      → find b.id c.actors ≡ none
      → b.name ≡ a.name
      → (find_by_name (add has c b).1 a.name ≡ some a)
        × (find_by_id (add has c b).1 b.id ≡ some b)
        × (find_by_id (add has c b).1 a.id ≡ some a)
  unfolding add find_by_name find_by_id link
  add_second c a b there linked new same =
      rw (new, named)
        (
          look_up-some a.name a.id (insert b.name b.id c.names) (insert b.id b c.actors)
                (find-insert_keeps a.name b.name b.id a.id c.names linked)
              ∙ find-insert_keeps a.id b.id b a c.actors there,
          find-insert_here b.id b c.actors new,
          find-insert_keeps a.id b.id b a c.actors there,
        )

-- A name that is not linked finds no actor.
pub find_by_name-none :
    (c : ActorContainer) (name : List ℕ) → find name c.names ≡ none → find_by_name c name ≡ none
unfolding find_by_name
find_by_name-none c name missing = look_up-none name c.names c.actors missing
