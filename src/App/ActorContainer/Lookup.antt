-- ===== src/App/ActorContainer/Lookup.antt =====
-- The indexes of the container agree with its actors, and what breaks that.
use play.Common.{ℕ, ◌≡◌, refl, sym, ap, ◌∙◌, inl, inr, true, none, some, List}
use play.Common.Tests.{◌==◌, ==_iff, Bool-cases}
use play.Common.Map.{
  or_some, find, insert, erase, find-insert_here, find-insert_apart, find-erase_here,
  find-erase_apart, nat_key, bytes_key,
}
use play.App.Index.{Agrees, look_up-Agrees, insert-Agrees}
use play.App.ActorContainer.{
  Actor, standard, ActorContainer, add, find_by_id, find_by_name, find_by_session,
}

-- Each actor is held under its id, and both indexes agree with the actors.
pub record Inv (c : ActorContainer) : Type 0 where
  pub ids : (i : ℕ) (a : Actor) → find i c.actors ≡ some a → a.id ≡ i
  pub by_name : Agrees (λ a. a.name) c.actors c.names
  pub by_session : Agrees (λ a. a.session_key) c.actors c.sessions

abbrev pub HoldsIds : List (ℕ × Actor) → Type 0
HoldsIds actors = (i : ℕ) (a : Actor) → find i actors ≡ some a → a.id ≡ i

pub insert-HoldsIds :
    (actors : List (ℕ × Actor)) (a : Actor)
    → HoldsIds actors
    → find a.id actors ≡ none
    → HoldsIds (insert a.id a actors)
insert-HoldsIds actors a ids new i b e = elim (Bool-cases (a.id == i)) [
  | inl same ↦
      let p : a.id ≡ i = (==_iff a.id i).0 same in
      let q =
        sym (find-insert_here a.id a actors new) ∙ ap (λ t. find t (insert a.id a actors)) p ∙ e in
      ap (λ o. (or_some o a).id) (sym q) ∙ p
  | inr apart ↦ ids i b (sym (find-insert_apart i a.id a actors apart) ∙ e)
]

pub erase-HoldsIds :
    (actors : List (ℕ × Actor)) (id : ℕ) → HoldsIds actors → HoldsIds (erase id actors)
erase-HoldsIds actors id ids i b e = elim (Bool-cases (id == i)) [
  | inl same ↦
      let gone =
        sym (find-erase_here id actors)
        ∙ ap (λ t. find t (erase id actors)) ((==_iff id i).0 same)
        ∙ e in
      cc
  | inr apart ↦ ids i b (sym (find-erase_apart i id actors apart) ∙ e)
]

-- An actor with a new id, name and session key is added, and then found under all three; the
-- container stays in agreement.
pub add-Inv :
    (c : ActorContainer) (a : Actor)
    → Inv c
    → find_by_id c a.id ≡ none
    → find a.name c.names ≡ none
    → find a.session_key c.sessions ≡ none
    → ((add standard c a).0 ≡ true)
      × Inv (add standard c a).1
      × (find_by_id (add standard c a).1 a.id ≡ some a)
      × (find_by_name (add standard c a).1 a.name ≡ some a)
      × (find_by_session (add standard c a).1 a.session_key ≡ some a)
unfolding add find_by_id find_by_name find_by_session
add-Inv c a inv new name session =
    let here = find-insert_here a.id a c.actors new in
    let names = insert-Agrees (λ b. b.name) c.actors c.names a.id a inv.by_name new name in
    let sessions =
      insert-Agrees (λ b. b.session_key) c.actors c.sessions a.id a inv.by_session new session in
    rw (new) (
      refl,
      record {
        ids = insert-HoldsIds c.actors a inv.ids new;
        by_name = names;
        by_session = sessions;
      },
      here,
      look_up-Agrees (λ b. b.name) _ _ a.id a names here,
      look_up-Agrees (λ b. b.session_key) _ _ a.id a sessions here,
    )
