-- ===== src/Ensure/Acts/Parallel.antt =====
-- A parallel of which one act does not activate.
use play.Common.{ℕ, ◌≡◌, refl, ◌∙◌, true, false, Option, List, [], ◌∷◌, ◌++◌, map}
use play.Common.Lists.{All}
use play.Ensure.Acts.{
  ActEnsure, activate, ActFactory, load_acts, activate_each, on_activate_parallel, ActParallel,
  activate_parallel, deactivate_parallel,
}
use play.Ensure.Acts.Only.{activate_ready}

abbrev pub CanStart : ActEnsure → Type 0
CanStart a = (a.active ≡ false) × (a.ready ≡ true)

abbrev pub IsActive : ActEnsure → Type 0
IsActive a = a.active ≡ true

activate-IsActive : (a : ActEnsure) → CanStart a → IsActive (activate a)
activate-IsActive a (off, ready) = activate_ready a off ∙ ready

activate_idle : (a : ActEnsure) → a.active ≡ false → a.ready ≡ false → activate a ≡ a
unfolding activate
activate_idle a off idle = simp (off, idle) refl

activate_each-stops :
    (front back : List ActEnsure) (a : ActEnsure)
    → All CanStart front
    → a.active ≡ false
    → a.ready ≡ false
    → activate_each (front ++ (a ∷ back)) ≡ (map activate front ++ (a ∷ back), false)
unfolding activate_each
activate_each-stops [] back a h off idle = rw (activate_idle a off idle, off) refl
activate_each-stops (b ∷ front) back a (h, hs) off idle =
    rw (activate-IsActive b h, activate_each-stops front back a hs off idle) refl

activated-IsActive :
    (front : List ActEnsure) → All CanStart front → All IsActive (map activate front)
activated-IsActive [] h = tt
activated-IsActive (a ∷ front) (h, hs) = (activate-IsActive a h, activated-IsActive front hs)

-- A parallel that is not active and loads acts of which one does not activate, behind some that do:
-- its activation fails, the acts in front are active then, and its deactivation leaves them so.
pub failed_parallel :
    (factory : ActFactory) (flow : Option (List (List ℕ × List ℕ))) (p : ActParallel)
    (front back : List ActEnsure) (a : ActEnsure)
    → p.active ≡ false
    → load_acts factory flow p.acts ≡ (front ++ (a ∷ back), true)
    → All CanStart front
    → a.active ≡ false
    → a.ready ≡ false
    → (q : ActParallel) × (activate_parallel factory flow p ≡ (q, false))
      × (deactivate_parallel q ≡ q)
      × (q.acts ≡ map activate front ++ (a ∷ back))
      × All IsActive (map activate front)
unfolding activate_parallel on_activate_parallel deactivate_parallel
failed_parallel factory flow p front back a off loaded h a_off idle = (
  record { acts = map activate front ++ (a ∷ back); active = false; active_count = p.active_count },
  rw (off, loaded) (rw (activate_each-stops front back a h a_off idle) refl),
  refl,
  refl,
  activated-IsActive front h,
)
