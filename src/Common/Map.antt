-- ===== src/Common/Map.antt =====
-- `std::map` as a list of entries in the order of their keys.
pub mod Entries
use Prim.Native.Nat.{ℕ, suc, ◌≤◌, ◌<◌}
use mathlib.Core.Path.{◌≡◌, refl, ap, ◌∙◌}
use mathlib.Core.Logic.{◌↔◌, inl, inr}
use mathlib.Core.Bool.{Bool, true, false, ◌&&◌, ◌||◌}
use mathlib.Core.Option.{Option, none, some}
use mathlib.Core.List.{List, [], ◌∷◌}
use native.Mathlib.Omega.{arith}
use play.Common.Tests.{ltb, ◌==◌, if◌then◌else◌, ==_iff, Bool-cases, Option-cases}
use play.Common.Lists.{length}

-- What a key type needs: equality that decides, and `operator<`.
pub record Key (K : Type 0) : Type 0 where
  pub beq : K → K → Bool
  pub beq_iff : (a b : K) → (beq a b ≡ true) ↔ (a ≡ b)
  pub less : K → K → Bool

-- Whether a look-up found something, and the value of one that found nothing else.
abbrev pub is_some {ℓ} : {A : Type ℓ} → Option A → Bool
is_some none = false
is_some (some a) = true

abbrev pub or_some {ℓ} : {A : Type ℓ} → Option A → A → A
or_some none a = a
or_some (some b) a = b

module _ {ℓ} {K : Type 0} {V : Type ℓ} ⦃key : Key K⦄ where
  unfoldable pub find : K → List (K × V) → Option V
  find k [] = none
  find k ((j, v) ∷ m) = if key.beq j k then some v else find k m

  -- The place of a key that is not there yet.
  unfoldable pub place : K → V → List (K × V) → List (K × V)
  place k v [] = (k, v) ∷ []
  place k v ((j, w) ∷ m) = if key.less k j then (k, v) ∷ (j, w) ∷ m else (j, w) ∷ place k v m

  -- `insert`: an entry that is there stays as it is.
  unfoldable pub insert : K → V → List (K × V) → List (K × V)
  unfolding find place
  insert k v m = if is_some (find k m) then m else place k v m

  -- A new value for a key that is there.
  unfoldable pub replace : K → V → List (K × V) → List (K × V)
  replace k v [] = []
  replace k v ((j, w) ∷ m) = (j, (if key.beq j k then v else w)) ∷ replace k v m

  -- `m[k] = v`
  unfoldable pub assign : K → V → List (K × V) → List (K × V)
  unfolding find place replace
  assign k v m = if is_some (find k m) then replace k v m else place k v m

  unfoldable pub erase : K → List (K × V) → List (K × V)
  erase k [] = []
  erase k ((j, v) ∷ m) = let rest = erase k m in if key.beq j k then rest else (j, v) ∷ rest

  find-place :
      (j k : K) (v : V) (m : List (K × V))
      → find k m ≡ none
      → find j (place k v m) ≡ (if key.beq k j then some v else find j m)
  unfolding find place
  find-place j k v [] h = refl
  find-place j k v ((i, w) ∷ m) h =
      ground (arith, key.beq_iff i k, key.beq_iff k j, key.beq_iff i j, find-place j k v m)

  -- `insert` adds the entry where the key was missing, and is the identity where it was not.
  pub find-insert :
      (j k : K) (v : V) (m : List (K × V))
      → find j (insert k v m) ≡ (if key.beq k j then some (or_some (find k m) v) else find j m)
  unfolding insert
  find-insert j k v m = elim (Option-cases (find k m)) [
    | inl e ↦ rw (e, insert) (find-place j k v m e)
    | inr (w, e) ↦ elim (Bool-cases (key.beq k j)) [
      | inl same ↦ rw (e, insert) (ground (arith, key.beq_iff k j))
      | inr other ↦ rw (e, insert) (rw other)
    ]
  ]

  find-replace :
      (j k : K) (v : V) (m : List (K × V))
      → find j (replace k v m)
        ≡ (if key.beq k j then (if is_some (find k m) then some v else none) else find j m)
  unfolding find replace
  find-replace j k v [] = ground arith
  find-replace j k v ((i, u) ∷ m) =
      ground (arith, key.beq_iff i k, key.beq_iff k j, key.beq_iff i j, find-replace j k v m)

  pub find-assign :
      (j k : K) (v : V) (m : List (K × V))
      → find j (assign k v m) ≡ (if key.beq k j then some v else find j m)
  unfolding assign
  find-assign j k v m = elim (Option-cases (find k m)) [
    | inl e ↦ rw (e, assign) (find-place j k v m e)
    | inr (w, e) ↦ rw (e, assign) (rw e at (find-replace j k v m))
  ]

  pub find-erase :
      (j k : K) (m : List (K × V)) → find j (erase k m) ≡ (if key.beq k j then none else find j m)
  unfolding find erase
  find-erase j k [] = ground arith
  find-erase j k ((i, w) ∷ m) =
      ground (arith, key.beq_iff i k, key.beq_iff k j, key.beq_iff i j, find-erase j k m)

  pub length-erase-le : (k : K) (m : List (K × V)) → length (erase k m) ≤ length m
  unfolding erase
  length-erase-le k [] = omega arith
  length-erase-le k ((i, w) ∷ m) = ground (arith, length-erase-le k m)

  pub length-erase-lt :
      (k : K) (v : V) (m : List (K × V)) → find k m ≡ some v → length (erase k m) < length m
  unfolding find erase
  length-erase-lt k v [] h = cc
  length-erase-lt k v ((i, w) ∷ m) h = ground (arith, length-erase-le k m, length-erase-lt k v m)

  length-place : (k : K) (v : V) (m : List (K × V)) → length (place k v m) ≡ suc (length m)
  unfolding place
  length-place k v [] = refl
  length-place k v ((i, w) ∷ m) = ground (arith, length-place k v m)

  pub length-insert-le : (k : K) (v : V) (m : List (K × V)) → length (insert k v m) ≤ suc (length m)
  unfolding insert
  length-insert-le k v m = ground (arith, length-place k v m)

  -- The four facts that most proofs need.
  pub find-insert_here :
      (k : K) (v : V) (m : List (K × V)) → find k m ≡ none → find k (insert k v m) ≡ some v
  find-insert_here k v m e =
      let same : key.beq k k ≡ true = (key.beq_iff k k).1 refl in
      find-insert k k v m ∙ rw (same, e) refl

  pub find-insert_keeps :
      (j k : K) (v w : V) (m : List (K × V)) → find j m ≡ some w → find j (insert k v m) ≡ some w
  find-insert_keeps j k v w m e = elim (Bool-cases (key.beq k j)) [
    | inl same ↦
        let there : find k m ≡ some w = ap (λ t. find t m) ((key.beq_iff k j).0 same) ∙ e in
        find-insert j k v m ∙ rw (same, there) refl
    | inr apart ↦ find-insert j k v m ∙ rw (apart) e
  ]

  pub find-insert_apart :
      (j k : K) (v : V) (m : List (K × V)) → key.beq k j ≡ false → find j (insert k v m) ≡ find j m
  find-insert_apart j k v m e = find-insert j k v m ∙ rw (e) refl

  pub find-erase_here : (k : K) (m : List (K × V)) → find k (erase k m) ≡ none
  find-erase_here k m =
      let same : key.beq k k ≡ true = (key.beq_iff k k).1 refl in find-erase k k m ∙ rw (same) refl

  pub find-erase_apart :
      (j k : K) (m : List (K × V)) → key.beq k j ≡ false → find j (erase k m) ≡ find j m
  find-erase_apart j k m e = find-erase j k m ∙ rw (e) refl

-- The keys of the program: numbers (`size_t`, `uintptr_t`, topics), strings, and pairs.
instance abbrev pub nat_key : Key ℕ
nat_key = record { beq = ◌==◌; beq_iff = ==_iff; less = ltb }

unfoldable pub bytes_eq : List ℕ → List ℕ → Bool
bytes_eq [] [] = true
bytes_eq [] (b ∷ bs) = false
bytes_eq (a ∷ as') [] = false
bytes_eq (a ∷ as') (b ∷ bs) = (a == b) && bytes_eq as' bs

pub bytes_eq_iff : (s t : List ℕ) → (bytes_eq s t ≡ true) ↔ (s ≡ t)
unfolding bytes_eq
bytes_eq_iff [] [] = (λ _. refl, λ _. refl)
bytes_eq_iff [] (b ∷ bs) = (λ e. cc, λ e. cc)
bytes_eq_iff (a ∷ as') [] = (λ e. cc, λ e. cc)
bytes_eq_iff (a ∷ as') (b ∷ bs) = ground (arith, bytes_eq_iff as' bs)

-- The order of `std::string`: lexicographic, a prefix first.
pub bytes_less : List ℕ → List ℕ → Bool
bytes_less s [] = false
bytes_less [] (b ∷ bs) = true
bytes_less (a ∷ as') (b ∷ bs) = ltb a b || ((a == b) && bytes_less as' bs)

instance abbrev pub bytes_key : Key (List ℕ)
bytes_key = record { beq = bytes_eq; beq_iff = bytes_eq_iff; less = bytes_less }

unfoldable pub pair_eq : ℕ × ℕ → ℕ × ℕ → Bool
pair_eq (a, b) (c, d) = (a == c) && (b == d)

pub pair_eq_iff : (p q : ℕ × ℕ) → (pair_eq p q ≡ true) ↔ (p ≡ q)
unfolding pair_eq
pair_eq_iff (a, b) (c, d) = ground arith

-- `operator<` of `std::pair`.
pub pair_less : ℕ × ℕ → ℕ × ℕ → Bool
pair_less (a, b) (c, d) = ltb a c || ((a == c) && ltb b d)

instance abbrev pub pair_key : Key (ℕ × ℕ)
pair_key = record { beq = pair_eq; beq_iff = pair_eq_iff; less = pair_less }
