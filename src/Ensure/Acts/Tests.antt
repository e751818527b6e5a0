-- ===== src/Ensure/Acts/Tests.antt =====
-- A serial of two acts, the first of them active.
use play.Ensure.Acts.Parallel.{IsActive, failed_parallel}
use play.Common.{
  ℕ, zero, suc, ◌+◌, ◌<◌, ◌≡◌, refl, sym, ap, ◌⊎◌, true, false, Option, some, List, [], ◌∷◌, ◌++◌,
  map, arith, length, All,
}
use play.Common.Tests.{some-injective}
use play.Common.Outcome.{ret, debug}
use play.Common.Map.{find, place, insert, nat_key, bytes_eq, bytes_key}
use play.Ensure.Acts.{
  ActEnsure, activate, ActFactory, add_creator, create, load_each, load_acts, ActSerial, next,
  ActParallel, activate_parallel, deactivate_parallel,
}
use play.Ensure.Acts.Only.{NoneActive, OnlyActive}
use play.Ensure.Acts.Serial.{IsSerial, IsStarted, next-IsSerial}

abbrev login : ActEnsure
login = record { name = 97 ∷ []; active = true; active_count = 1; ready = true }

abbrev battle : ActEnsure
battle = record { name = 98 ∷ []; active = false; active_count = 0; ready = true }

abbrev at_login : ActSerial
at_login = record { acts = login ∷ battle ∷ []; current_act_index = 0 }

abbrev at_battle : ActSerial
at_battle = record {
  acts = record login { active = false } ∷ record battle { active = true } ∷ [];
  current_act_index = 1;
}

at_battle-IsSerial : IsSerial at_battle
at_battle-IsSerial = (omega arith, only)
  where
    only : OnlyActive 1 at_battle.acts
    only zero a e off = ap (λ t. t.active) (sym (some-injective e))
    only (suc zero) a e off = cc
    only (suc (suc j)) a e off = cc

next-IsSerial_example :
    (s' : ActSerial) × (next debug at_battle ≡ ret s')
    × (((1 + 1 < length at_battle.acts)
          × IsSerial s'
          × (s'.current_act_index ≡ 2)
          × IsStarted at_battle 2 s')
        ⊎ ((1 + 1 ≡ length at_battle.acts) × (s'.current_act_index ≡ 1) × NoneActive s'.acts))
next-IsSerial_example = next-IsSerial debug at_battle at_battle-IsSerial

abbrev factory : ActFactory
factory = add_creator (116 ∷ []) (λ name. true) []

-- A second activation of a serial loads its acts again.
loads_again :
    load_acts factory (some ((116 ∷ [], 97 ∷ []) ∷ [])) (login ∷ [])
    ≡ (login ∷ record { name = 97 ∷ []; active = false; active_count = 0; ready = true } ∷ [], true)
unfolding load_acts load_each create find place insert bytes_eq add_creator
loads_again = refl

-- A parallel of a first act that activates and a second one that does not.
abbrev up_act : ActEnsure
up_act = record { name = 117 ∷ []; active = false; active_count = 0; ready = true }

abbrev down_act : ActEnsure
down_act = record { name = 100 ∷ []; active = false; active_count = 0; ready = false }

abbrev by_name : ActFactory
by_name = (97 ∷ [], λ name. bytes_eq name (117 ∷ [])) ∷ []

abbrev flow_two : Option (List (List ℕ × List ℕ))
flow_two = some ((97 ∷ [], 117 ∷ []) ∷ (97 ∷ [], 100 ∷ []) ∷ [])

abbrev not_begun : ActParallel
not_begun = record { acts = []; active = false; active_count = 0 }

failed_parallel_example :
    (q : ActParallel) × (activate_parallel by_name flow_two not_begun ≡ (q, false))
    × (deactivate_parallel q ≡ q)
    × (q.acts ≡ map activate (up_act ∷ []) ++ (down_act ∷ []))
    × All IsActive (map activate (up_act ∷ []))
unfolding load_acts load_each create find bytes_eq
failed_parallel_example =
    failed_parallel by_name flow_two not_begun (up_act ∷ []) [] down_act refl refl
      ((refl, refl), tt) refl refl
