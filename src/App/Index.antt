-- ===== src/App/Index.antt =====
-- play/app/index.hpp and index.ipp: a second key for the entries of a container, and how the two
-- maps agree.
use play.Common.{ℕ, ◌≡◌, refl, sym, ap, ◌∙◌, inl, inr, Option, none, some, List}
use play.Common.Tests.{◌==◌, ==_iff, Bool-cases, some-injective}
use play.Common.Map.{
  Key, find, insert, erase, find-insert_here, find-insert_keeps, find-insert_apart, find-erase_here,
  find-erase_apart, nat_key, bytes_key,
}

module _ {K : Type 0} ⦃key : Key K⦄ where
  unfoldable pub link : K → ℕ → List (K × ℕ) → List (K × ℕ)
  link k i index = insert k i index

  unfoldable pub unlink : K → List (K × ℕ) → List (K × ℕ)
  unlink k index = erase k index

module _ {A K : Type 0} ⦃key : Key K⦄ where
  -- `find`; `none` is the end of the container.
  unfoldable pub look_up : K → List (K × ℕ) → List (ℕ × A) → Option A
  look_up k index container = elim (find k index) [ none ↦ none | some i ↦ find i container ]

  pub look_up-some :
      (k : K) (i : ℕ) (index : List (K × ℕ)) (container : List (ℕ × A))
      → find k index ≡ some i
      → look_up k index container ≡ find i container
  unfolding look_up
  look_up-some k i index container e = rw (look_up, e) refl

  pub look_up-none :
      (k : K) (index : List (K × ℕ)) (container : List (ℕ × A))
      → find k index ≡ none
      → look_up k index container ≡ none
  unfolding look_up
  look_up-none k index container e = rw (look_up, e) refl

  -- The index has every entry of the container under its second key, and nothing else.
  pub record Agrees (key_of : A → K) (container : List (ℕ × A)) (index : List (K × ℕ))
      : Type 0 where
    pub sound :
        (k : K) (i : ℕ)
        → find k index ≡ some i
        → (a : A) × (find i container ≡ some a) × (key_of a ≡ k)
    pub complete : (i : ℕ) (a : A) → find i container ≡ some a → find (key_of a) index ≡ some i

  pub look_up-Agrees :
      (key_of : A → K) (container : List (ℕ × A)) (index : List (K × ℕ)) (i : ℕ) (a : A)
      → Agrees key_of container index
      → find i container ≡ some a
      → look_up (key_of a) index container ≡ some a
  unfolding look_up
  look_up-Agrees key_of container index i a agrees e = rw (look_up, agrees.complete i a e) e

  module _ (key_of : A → K) (container : List (ℕ × A)) (index : List (K × ℕ)) (i : ℕ) (a : A)
      (agrees : Agrees key_of container index) where
    pub insert-Agrees :
        find i container ≡ none
        → find (key_of a) index ≡ none
        → Agrees key_of (insert i a container) (link (key_of a) i index)
    unfolding link
    insert-Agrees new fresh = record {
      sound = λ k j e. elim (Bool-cases (key.beq (key_of a) k)) [
        | inl same ↦
            let q : key_of a ≡ k = (key.beq_iff (key_of a) k).0 same in
            let p : i ≡ j = some-injective (
              sym (find-insert_here (key_of a) i index fresh)
              ∙ ap (λ t. find t (insert (key_of a) i index)) q
              ∙ e) in
            (
              a,
              ap (λ t. find t (insert i a container)) (sym p) ∙ find-insert_here i a container new,
              q,
            )
        | inr apart ↦
            let (b, eb, kb) =
              agrees.sound k j (sym (find-insert_apart k (key_of a) i index apart) ∙ e) in
            (b, find-insert_keeps j i a b container eb, kb)
      ];
      complete = λ j b e. elim (Bool-cases (i == j)) [
        | inl same ↦
            let p : i ≡ j = (==_iff i j).0 same in
            let q : a ≡ b = some-injective (
              sym (find-insert_here i a container new)
              ∙ ap (λ t. find t (insert i a container)) p
              ∙ e) in
            ap (λ t. find (key_of t) (insert (key_of a) i index)) (sym q)
            ∙ find-insert_here (key_of a) i index fresh
            ∙ ap some p
        | inr apart ↦
            find-insert_keeps (key_of b) (key_of a) i j index
              (agrees.complete j b (sym (find-insert_apart j i a container apart) ∙ e))
      ];
    }

    pub erase-Agrees :
        find i container ≡ some a → Agrees key_of (erase i container) (unlink (key_of a) index)
    unfolding unlink
    erase-Agrees there = record {
      sound = λ k j e. elim (Bool-cases (key.beq (key_of a) k)) [
        | inl same ↦
            let q : key_of a ≡ k = (key.beq_iff (key_of a) k).0 same in
            let gone =
              sym (find-erase_here (key_of a) index)
              ∙ ap (λ t. find t (erase (key_of a) index)) q
              ∙ e in
            cc
        | inr apart ↦
            let (b, eb, kb) =
              agrees.sound k j (sym (find-erase_apart k (key_of a) index apart) ∙ e) in
            elim (Bool-cases (i == j)) [
              | inl same ↦
                  let q : a ≡ b =
                    some-injective
                      (sym there ∙ ap (λ t. find t container) ((==_iff i j).0 same) ∙ eb) in
                  let back = (key.beq_iff (key_of a) k).1 (ap key_of q ∙ kb) in cc
              | inr other ↦ (b, find-erase_apart j i container other ∙ eb, kb)
            ]
      ];
      complete = λ j b e. elim (Bool-cases (i == j)) [
        | inl same ↦
            let gone =
              sym (find-erase_here i container)
              ∙ ap (λ t. find t (erase i container)) ((==_iff i j).0 same)
              ∙ e in
            cc
        | inr apart ↦
            let at_j = agrees.complete j b (sym (find-erase_apart j i container apart) ∙ e) in
            elim (Bool-cases (key.beq (key_of a) (key_of b))) [
              | inl same ↦
                  let p : i ≡ j = some-injective (
                    sym (agrees.complete i a there)
                    ∙ ap (λ t. find t index) ((key.beq_iff (key_of a) (key_of b)).0 same)
                    ∙ at_j) in
                  let back = (==_iff i j).1 p in cc
              | inr other ↦ find-erase_apart (key_of b) (key_of a) index other ∙ at_j
            ]
      ];
    }
