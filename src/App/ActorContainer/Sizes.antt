-- ===== src/App/ActorContainer/Sizes.antt =====
-- How many actors a container holds, under any of its template arguments.
use play.Common.{ℕ, suc, ◌≤◌, ◌<◌, ◌≡◌, sym, ap, subst, inl, inr, none, some, List, arith}
use play.Common.Tests.{Bool-cases, Option-cases}
use play.Common.Outcome.{ret, faults, ret-injective}
use play.Common.Map.{
  Key, is_some, find, erase, length-erase-le, length-erase-lt, length-insert-le, nat_key, bytes_key,
}
use play.App.Index.{look_up}
use play.App.ActorContainer.{
  Actor, Has, ActorContainer, add, find_by_id, find_by_name, size, is_indexed, del_found, del_by_id,
  del_by_name,
}
use play.App.ActorContainer.Lookup.{HoldsIds, insert-HoldsIds, erase-HoldsIds}

-- What a look-up through an index found is held under the id in the index.
look_up-found :
    {K : Type 0} ⦃key : Key K⦄ (k : K) (index : List (K × ℕ)) (actors : List (ℕ × Actor))
    (a : Actor)
    → HoldsIds actors
    → look_up k index actors ≡ some a
    → find a.id actors ≡ some a
unfolding look_up
look_up-found k index actors a ids e = elim (Option-cases (find k index)) [
  | inl missing ↦ let bad : none ≡ some a = rw (look_up, missing) at e in cc
  | inr (i, there) ↦
      let held : find i actors ≡ some a = rw (look_up, there) at e in
      subst (λ t. find t actors ≡ some a) (sym (ids i a held)) held
]

pub find_by_name-found :
    (c : ActorContainer) (name : List ℕ) (a : Actor)
    → HoldsIds c.actors
    → find_by_name c name ≡ some a
    → find a.id c.actors ≡ some a
unfolding find_by_name
find_by_name-found c name a ids e = look_up-found name c.names c.actors a ids e

pub size-add : (has : Has) (c : ActorContainer) (a : Actor) → size (add has c a).1 ≤ suc (size c)
unfolding add size
size-add has c a = elim (Bool-cases (is_some (find a.id c.actors))) [
  | inl e ↦ rw (e) (omega arith)
  | inr e ↦ rw (e) (length-insert-le a.id a c.actors)
]

pub add-HoldsIds :
    (has : Has) (c : ActorContainer) (a : Actor)
    → HoldsIds c.actors
    → HoldsIds (add has c a).1.actors
unfolding add
add-HoldsIds has c a ids = elim (Option-cases (find a.id c.actors)) [
  | inl e ↦ rw (e) (insert-HoldsIds c.actors a ids e)
  | inr (b, e) ↦ rw (e) ids
]

module _ (has : Has) where
  -- What a deletion that returns leaves of the actors.
  del_found-actors :
      (c d : ActorContainer) (a : Actor)
      → del_found has c (some a) ≡ ret d
      → d.actors ≡ erase a.id c.actors
  unfolding del_found
  del_found-actors c d a e = elim (Bool-cases (is_indexed has)) [
    | inl b ↦ let bad : faults ≡ ret d = rw (b) at e in cc
    | inr b ↦
        let same : ret (record c { actors = erase a.id c.actors }) ≡ ret d = rw (b) at e in
        ap (λ t. t.actors) (sym (ret-injective same))
  ]

  pub del_by_name-found :
      (c d : ActorContainer) (name : List ℕ) (a : Actor)
      → HoldsIds c.actors
      → find_by_name c name ≡ some a
      → del_by_name has c name ≡ ret d
      → HoldsIds d.actors × (size d < size c)
  unfolding del_by_name size
  del_by_name-found c d name a ids there e =
      let left = del_found-actors c d a (rw (there) at e) in
      let held = find_by_name-found c name a ids there in
      rw (left) (erase-HoldsIds c.actors a.id ids, length-erase-lt a.id a c.actors held)

  pub del_by_id-size :
      (c d : ActorContainer) (id : ℕ) → del_by_id has c id ≡ ret d → size d ≤ size c
  unfolding del_by_id size del_found
  del_by_id-size c d id e = elim (Option-cases (find_by_id c id)) [
    | inl missing ↦
        let same : ret c ≡ ret d = rw (missing) at e in omega (arith, ap size (ret-injective same))
    | inr (a, there) ↦
        let left = del_found-actors c d a (rw (there) at e) in
        rw (left) (length-erase-le a.id c.actors)
  ]
