-- ===== src/Base/ObjectPool/Reuse.antt =====
-- Who holds which address: the pool with the objects that are alive.
use mathlib.Core.List.{
  Mem, Nodup, Perm, Nodup-cons, Nodup-nil, perm_middle, perm_append_singleton, mem-append_left,
}
use mathlib.Core.List.Perm
use play.Common.{
  ℕ, ◌+◌, ◌≡◌, refl, ap, subst, List, [], ◌∷◌, ◌++◌, append_assoc, arith, length, length-append,
}
use play.Base.ObjectPool.{ObjectPool, init, construct, release}

-- The pool, and the addresses of the objects that have been constructed and not yet released.
pub record World : Type 0 where
  pub pool : ObjectPool
  pub live : List ℕ

abbrev pub owned : World → List ℕ
owned w = w.live ++ w.pool.pool

-- `new` returns an address that neither a live object nor the pool holds; a deleter releases an
-- object that is alive, once.
pub data Step : World → World → Type 0 where
  constructs :
      (w : World) (fresh : ℕ)
      → ¬ Mem fresh (owned w)
      → Step w
          (record { pool = (construct w.pool fresh).1; live = (construct w.pool fresh).0 ∷ w.live })
  releases :
      (w : World) (before after : List ℕ) (p : ℕ)
      → w.live ≡ before ++ (p ∷ after)
      → Step w (record { pool = release w.pool p; live = before ++ after })

pub data Reach : World → Type 0 where
  start : Reach (record { pool = init; live = [] })
  step : {v w : World} → Reach v → Step v w → Reach w

pub record Inv (w : World) : Type 0 where
  pub distinct : Nodup (owned w)
  pub counted : w.pool.alloc_count ≡ w.pool.free_count + length w.live

construct_empty :
    (s : ObjectPool) (fresh : ℕ)
    → s.pool ≡ []
    → construct s fresh ≡ (fresh, record s { alloc_count = s.alloc_count + 1 })
unfolding construct
construct_empty s fresh e = ground arith

construct_reuse :
    (s : ObjectPool) (fresh x : ℕ) (xs : List ℕ)
    → s.pool ≡ x ∷ xs
    → construct s fresh ≡ (x, record s { alloc_count = s.alloc_count + 1; pool = xs })
unfolding construct
construct_reuse s fresh x xs e = ground arith

construct-Nodup :
    (w : World) (fresh : ℕ) (xs : List ℕ)
    → w.pool.pool ≡ xs
    → ¬ Mem fresh (owned w)
    → Nodup (owned w)
    → Nodup ((construct w.pool fresh).0 ∷ (w.live ++ (construct w.pool fresh).1.pool))
construct-Nodup w fresh [] e new d = rw (construct_empty w.pool fresh e) (Nodup-cons.1 (new, d))
construct-Nodup w fresh (x ∷ xs) e new d =
    rw (construct_reuse w.pool fresh x xs e)
      (Perm.nodup (perm_middle w.live xs) (subst (λ l. Nodup (w.live ++ l)) e d))

construct_counts :
    (s : ObjectPool) (fresh : ℕ)
    → ((construct s fresh).1.alloc_count ≡ s.alloc_count + 1)
      × ((construct s fresh).1.free_count ≡ s.free_count)
unfolding construct
construct_counts s fresh = ground arith

release-perm :
    (before after pool : List ℕ) (p : ℕ)
    → Perm ((before ++ (p ∷ after)) ++ pool) ((before ++ after) ++ (pool ++ (p ∷ [])))
release-perm before after pool p =
    subst (Perm ((before ++ (p ∷ after)) ++ pool)) (append_assoc (before ++ after) pool (p ∷ [])) (
      Perm.trans (Perm.append_right pool (perm_middle before after))
        (Perm.symm (perm_append_singleton p ((before ++ after) ++ pool))))

Step-Inv : {v w : World} → Step v w → Inv v → Inv w
Step-Inv (constructs w fresh new) i = record {
  distinct = construct-Nodup w fresh w.pool.pool refl new i.distinct;
  counted = omega (arith, construct_counts w.pool fresh, i.counted);
}
Step-Inv (releases w before after p e) i = record {
  distinct =
      unfold release in
      Perm.nodup (release-perm before after w.pool.pool p)
        (subst (λ l. Nodup (l ++ w.pool.pool)) e i.distinct);
  counted =
      unfold release in
      omega (
        arith,
        i.counted,
        ap length e,
        length-append before (p ∷ after),
        length-append before after,
      );
}

init-Inv : Inv (record { pool = init; live = [] })
unfolding init
init-Inv = record { distinct = Nodup-nil; counted = refl }

-- In every reachable state no address is held twice, by live objects or by the pool, and the
-- objects constructed are those released and those alive.
pub Reach-Inv : {w : World} → Reach w → Inv w
Reach-Inv start = init-Inv
Reach-Inv (step r s) = Step-Inv s (Reach-Inv r)

-- In a reachable state `construct` does not hand out the address of a live object, if operator new
-- returns an address that nobody holds.
pub construct-not-live :
    (w : World) (fresh : ℕ)
    → Reach w
    → ¬ Mem fresh (owned w)
    → ¬ Mem (construct w.pool fresh).0 w.live
construct-not-live w fresh r new m =
    (Nodup-cons.0 (construct-Nodup w fresh w.pool.pool refl new (Reach-Inv r).distinct)).0
      (mem-append_left _ m)

-- If the pool is not empty and the recorded size is right, `construct` leaves a recorded size that
-- is one too large.
pub construct_stale_size :
    (s : ObjectPool) (fresh p : ℕ) (rest : List ℕ)
    → s.pool ≡ p ∷ rest
    → s.pool_size ≡ length s.pool
    → (construct s fresh).1.pool_size ≡ length (construct s fresh).1.pool + 1
construct_stale_size s fresh p rest e size =
    rw (construct_reuse s fresh p rest e) (omega (arith, ap length e))
