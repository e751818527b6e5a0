-- ===== src/Common/Outcome.antt =====
-- What a run of the code ends in. `PLAY_CHECK` of play/base/macros.hpp logs a warning and calls
-- `assert`, which ends the program in a build with assertions and does nothing in one without.
use mathlib.Core.Path.{◌≡◌, refl}
use mathlib.Core.Logic.{◌⊎◌, inl, inr}
use mathlib.Core.Bool.{Bool, true, false}

-- `aborts`: an assertion failed. `throws`: a C++ exception leaves the function. `faults`: the code
-- reaches undefined behaviour, such as a call through a null pointer.
pub data Outcome {ℓ} (A : Type ℓ) : Type ℓ where
  ret : A → Outcome A
  aborts : Outcome A
  throws : Outcome A
  faults : Outcome A

infixl 5 ◌>>=◌ ◌>>◌
abbrev pub ◌>>=◌ {ℓ κ} : {A : Type ℓ} {B : Type κ} → Outcome A → (A → Outcome B) → Outcome B
ret a >>= f = f a
aborts >>= f = aborts
throws >>= f = throws
faults >>= f = faults

abbrev pub ◌>>◌ {ℓ} : {B : Type ℓ} → Outcome (Unit {0}) → Outcome B → Outcome B
m >> k = m >>= λ _. k

-- Whether `assert` is compiled in.
pub data Build : Type 0 where
  debug release : Build

-- PLAY_CHECK(cond)
unfoldable pub play_check : Build → Bool → Outcome (Unit {0})
play_check debug true = ret tt
play_check debug false = aborts
play_check release c = ret tt

pub play_check-true : (m : Build) → play_check m true ≡ ret tt
unfolding play_check
play_check-true debug = refl
play_check-true release = refl

pub play_check-cases :
    (m : Build) (c : Bool) → (play_check m c ≡ ret tt) ⊎ (play_check m c ≡ aborts)
unfolding play_check
play_check-cases debug true = inl refl
play_check-cases debug false = inr refl
play_check-cases release c = inl refl

-- Inversion of a checked step that returned.
pub play_check-ret {ℓ} :
    {A : Type ℓ} (m : Build) (c : Bool) {r : Outcome A} {a : A}
    → (play_check m c >> r) ≡ ret a
    → r ≡ ret a
unfolding play_check
play_check-ret debug true e = e
play_check-ret debug false e = cc
play_check-ret release c e = e

-- Inversion of a check by itself.
pub play_check-passed :
    (m : Build) (c : Bool) → play_check m c ≡ ret tt → (c ≡ true) ⊎ (m ≡ release)
unfolding play_check
play_check-passed debug true e = inl refl
play_check-passed debug false e = cc
play_check-passed release c e = inr refl

pub play_check-failed : (m : Build) (c : Bool) → play_check m c ≡ aborts → (c ≡ false) × (m ≡ debug)
unfolding play_check
play_check-failed debug true e = cc
play_check-failed debug false e = (refl, refl)
play_check-failed release c e = cc

pub >>=-eq-ret {ℓ κ} :
    {A : Type ℓ} {B : Type κ} (r : Outcome A) (f : A → Outcome B) {b : B}
    → (r >>= f) ≡ ret b
    → (a : A) × (r ≡ ret a) × (f a ≡ ret b)
>>=-eq-ret (ret a) f e = (a, refl, e)
>>=-eq-ret aborts f e = cc
>>=-eq-ret throws f e = cc
>>=-eq-ret faults f e = cc

pub ret-injective {ℓ} : {A : Type ℓ} {a b : A} → ret a ≡ ret b → a ≡ b
ret-injective e = cc
