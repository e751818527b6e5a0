-- ===== src/App/Services.antt =====
-- play/app/app.ipp and play/app/actor.ipp: the services of an app and the acts of an actor, each in a
-- map from its `type_index`, a number, to the object.
use play.Common.{ℕ, ◌≡◌, refl, inl, inr, Bool, true, false, not, Option, some, List, [], ◌∷◌, ◌++◌}
use play.Common.Tests.{◌==◌, if◌then◌else◌, Bool-cases}
use play.Common.Map.{is_some, or_some, find, insert, find-insert, nat_key, bytes_key}

module _ {ℓ} {Service : Type ℓ} where
  -- The object is made in any case and dropped where its type is taken.
  unfoldable pub create_service : ℕ → Service → List (ℕ × Service) → Bool × List (ℕ × Service)
  create_service index service services =
      (not (is_some (find index services)), insert index service services)

  unfoldable pub get_service : ℕ → List (ℕ × Service) → Option Service
  get_service index services = find index services

-- In the order of the type indexes.
unfoldable pub for_each_service {ℓ κ} :
    {Service : Type ℓ} {R : Type κ} → (Service → R) → List (ℕ × Service) → List R
for_each_service fn [] = []
for_each_service fn ((index, service) ∷ services) = fn service ∷ for_each_service fn services

-- The acts of an actor, with those that `on_created_act` was told of.
pub record Acts {ℓ} (Act : Type ℓ) : Type ℓ where
  pub acts : List (ℕ × Act)
  pub created : List Act

module _ {ℓ} {Act : Type ℓ} where
  unfoldable pub create_act : ℕ → Act → Acts Act → Bool × Acts Act
  create_act index act a =
      if is_some (find index a.acts)
      then (false, a)
      else (true, record { acts = insert index act a.acts; created = a.created ++ (act ∷ []) })

  unfoldable pub get_act : ℕ → Acts Act → Option Act
  get_act index a = find index a.acts

  unfoldable pub has_act : ℕ → Acts Act → Bool
  has_act index a = is_some (find index a.acts)

  -- An act is created if and only if the actor has none of its type; an act that is there stays, and
  -- the acts of other types do not change.
  pub create_act-get_act :
      (index j : ℕ) (act : Act) (a : Acts Act)
      → ((create_act index act a).0 ≡ not (has_act index a))
        × (get_act j (create_act index act a).1
            ≡ (if index == j then some (or_some (get_act index a) act) else get_act j a))
  unfolding create_act get_act has_act insert
  create_act-get_act index j act a = (create_act_result index act a, create_act_acts index j act a)
    where
      create_act_result :
          (index : ℕ) (act : Act) (a : Acts Act)
          → (create_act index act a).0 ≡ not (has_act index a)
      create_act_result index act a = elim (Bool-cases (is_some (find index a.acts))) [
        | inl e ↦ rw (e) refl
        | inr e ↦ rw (e) refl
      ]

      create_act_acts :
          (index j : ℕ) (act : Act) (a : Acts Act)
          → get_act j (create_act index act a).1
            ≡ (if index == j then some (or_some (get_act index a) act) else get_act j a)
      create_act_acts index j act a = elim (Bool-cases (is_some (find index a.acts))) [
        | inl e ↦ rw (e) (rw (e) at (find-insert j index act a.acts))
        | inr e ↦ rw (e) (rw (e) at (find-insert j index act a.acts))
      ]
