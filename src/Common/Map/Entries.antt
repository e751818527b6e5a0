-- ===== src/Common/Map/Entries.antt =====
-- What holds of every entry of a map, under the operations that change it.
use Prim.Native.Nat.{suc}
use play.Common.Tests.{Bool-cases}
use play.Common.Lists.{length, All}
use play.Common.Map.{Key, is_some, find, place, insert, replace, assign, erase, nat_key}
use mathlib.Core.Path.{◌≡◌, refl, ap, subst}
use mathlib.Core.Logic.{inl, inr}
use mathlib.Core.Option.{some}
use mathlib.Core.List.{List, [], ◌∷◌, ◌++◌}

module _ {K : Type 0} {V : Type 0} ⦃key : Key K⦄ (P : K × V → Type 0) where
  pub All-place : (k : K) (v : V) (m : List (K × V)) → P (k, v) → All P m → All P (place k v m)
  unfolding place
  All-place k v [] p h = (p, tt)
  All-place k v ((j, w) ∷ m) p (q, h) = elim (Bool-cases (key.less k j)) [
    | inl e ↦ rw (e) (p, (q, h))
    | inr e ↦ rw (e) (q, All-place k v m p h)
  ]

  pub All-insert : (k : K) (v : V) (m : List (K × V)) → P (k, v) → All P m → All P (insert k v m)
  unfolding insert
  All-insert k v m p h = elim (Bool-cases (is_some (find k m))) [
    | inl e ↦ rw (e) h
    | inr e ↦ rw (e) (All-place k v m p h)
  ]

  pub All-erase : (k : K) (m : List (K × V)) → All P m → All P (erase k m)
  unfolding erase
  All-erase k [] h = tt
  All-erase k ((j, w) ∷ m) (q, h) = elim (Bool-cases (key.beq j k)) [
    | inl e ↦ rw (e) (All-erase k m h)
    | inr e ↦ rw (e) (q, All-erase k m h)
  ]

  pub All-find : (k : K) (v : V) (m : List (K × V)) → find k m ≡ some v → All P m → P (k, v)
  unfolding find
  All-find k v [] e h = cc
  All-find k v ((j, w) ∷ m) e (q, h) = elim (Bool-cases (key.beq j k)) [
    | inl b ↦
        let same : j ≡ k = (key.beq_iff j k).0 b in
        let here : w ≡ v = found w v (rw (b) at e) in
        subst (λ t. P (t, v)) same (subst (λ t. P (j, t)) here q)
    | inr b ↦ All-find k v m (rw (b) at e) h
  ]
    where
      found : (w v : V) → some w ≡ some v → w ≡ v
      found w v e = cc

-- An entry that is found stands somewhere in the list.
module _ {K : Type 0} {V : Type 0} ⦃key : Key K⦄ where
  pub find-split :
      (k : K) (v : V) (m : List (K × V))
      → find k m ≡ some v
      → (front : List (K × V)) × (back : List (K × V)) × (m ≡ front ++ ((k, v) ∷ back))
  unfolding find
  find-split k v [] e = cc
  find-split k v ((j, w) ∷ m) e = elim (Bool-cases (key.beq j k)) [
    | inl b ↦
        let same : j ≡ k = (key.beq_iff j k).0 b in
        let here : some w ≡ some v = rw (b) at e in ([], m, cc)
    | inr b ↦
        let (front, back, s) = find-split k v m (rw (b) at e) in
        ((j, w) ∷ front, back, ap (◌∷◌ (j, w)) s)
  ]

  length-replace : (k : K) (v : V) (m : List (K × V)) → length (replace k v m) ≡ length m
  unfolding replace
  length-replace k v [] = refl
  length-replace k v ((j, w) ∷ m) = ap suc (length-replace k v m)

  pub length-assign :
      (k : K) (v w : V) (m : List (K × V)) → find k m ≡ some w → length (assign k v m) ≡ length m
  unfolding assign
  length-assign k v w m e = rw (e) (length-replace k v m)
