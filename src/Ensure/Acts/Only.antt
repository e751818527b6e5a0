-- ===== src/Ensure/Acts/Only.antt =====
-- Which acts of a list are active.
use play.Common.{
  ℕ, zero, suc, ◌<◌, ◌≡◌, refl, sym, ap, ◌∙◌, inl, inr, false, some, List, [], ◌∷◌, arith,
}
use play.Common.Tests.{◌==◌, ==_iff, Bool-cases, some-injective}
use play.Common.Lists.{length, get_elem?}
use play.Ensure.Acts.{ActEnsure, activate, deactivate, update_at}

-- None is active, or none but the one at an index.
abbrev pub NoneActive : List ActEnsure → Type 0
NoneActive acts = (j : ℕ) (a : ActEnsure) → get_elem? acts j ≡ some a → a.active ≡ false

abbrev pub OnlyActive : ℕ → List ActEnsure → Type 0
OnlyActive i acts =
    (j : ℕ) (a : ActEnsure) → get_elem? acts j ≡ some a → (j == i) ≡ false → a.active ≡ false

pub length-update_at :
    (f : ActEnsure → ActEnsure) (i : ℕ) (acts : List ActEnsure)
    → length (update_at f i acts) ≡ length acts
unfolding update_at
length-update_at f i [] = refl
length-update_at f zero (a ∷ acts) = refl
length-update_at f (suc i) (a ∷ acts) = ap suc (length-update_at f i acts)

pub get_elem_here :
    (f : ActEnsure → ActEnsure) (i : ℕ) (acts : List ActEnsure) (a : ActEnsure)
    → get_elem? acts i ≡ some a
    → get_elem? (update_at f i acts) i ≡ some (f a)
unfolding update_at
get_elem_here f i [] a e = cc
get_elem_here f zero (b ∷ acts) a e = ap (λ t. some (f t)) (some-injective e)
get_elem_here f (suc i) (b ∷ acts) a e = get_elem_here f i acts a e

pub get_elem_apart :
    (f : ActEnsure → ActEnsure) (i j : ℕ) (acts : List ActEnsure)
    → (j == i) ≡ false
    → get_elem? (update_at f i acts) j ≡ get_elem? acts j
unfolding update_at
get_elem_apart f i j [] off = refl
get_elem_apart f zero zero (a ∷ acts) off = cc
get_elem_apart f zero (suc j) (a ∷ acts) off = refl
get_elem_apart f (suc i) zero (a ∷ acts) off = refl
get_elem_apart f (suc i) (suc j) (a ∷ acts) off = get_elem_apart f i j acts (ground arith)

pub get_elem_in_range :
    (acts : List ActEnsure) (i : ℕ)
    → i < length acts
    → (a : ActEnsure) × (get_elem? acts i ≡ some a)
get_elem_in_range [] i h = absurd (omega arith)
get_elem_in_range (a ∷ acts) zero h = (a, refl)
get_elem_in_range (a ∷ acts) (suc i) h = get_elem_in_range acts i (omega arith)

pub deactivate_lem : (a : ActEnsure) → (deactivate a).active ≡ false
unfolding deactivate
deactivate_lem a = elim (Bool-cases a.active) [
  | inl b ↦ rw (deactivate, b) refl
  | inr b ↦ rw (deactivate, b) refl
]

-- Deactivating the only one leaves none, and activating one where there is none makes it the only.
pub deactivate-NoneActive :
    (i : ℕ) (acts : List ActEnsure) (a : ActEnsure)
    → get_elem? acts i ≡ some a
    → OnlyActive i acts
    → NoneActive (update_at deactivate i acts)
deactivate-NoneActive i acts a there only j b e = elim (Bool-cases (j == i)) [
  | inl same ↦
      let q : j ≡ i = (==_iff j i).0 same in
      let here : deactivate a ≡ b = some-injective (
        sym (get_elem_here deactivate i acts a there)
        ∙ ap (get_elem? (update_at deactivate i acts)) (sym q)
        ∙ e) in
      ap (λ t. t.active) (sym here) ∙ deactivate_lem a
  | inr off ↦ only j b (sym (get_elem_apart deactivate i j acts off) ∙ e) off
]

pub activate-OnlyActive :
    (i : ℕ) (acts : List ActEnsure) → NoneActive acts → OnlyActive i (update_at activate i acts)
activate-OnlyActive i acts none_yet j b e off =
    none_yet j b (sym (get_elem_apart activate i j acts off) ∙ e)

pub activate_ready : (a : ActEnsure) → a.active ≡ false → (activate a).active ≡ a.ready
unfolding activate
activate_ready a off = elim (Bool-cases a.ready) [
  | inl b ↦ rw (activate, off, b) refl
  | inr b ↦ rw (activate, off, b) refl
]
