-- ===== src/Ensure/Acts.antt =====
-- The acts of play/ensure: act_ensure.cpp, act_factory.cpp, act_composite.cpp, act_serial.cpp and
-- act_parallel.cpp. `ready` is what the `on_activate` of an act in a composite returns; what its
-- other handlers do is outside.
pub mod Only
pub mod Serial
pub mod Parallel
pub mod Tests
use play.Common.{ℕ, zero, suc, ◌+◌, Bool, true, false, not, Option, none, some, List, [], ◌∷◌, ◌++◌}
use play.Common.Tests.{ltb, leb, ◌==◌, if◌then◌else◌}
use play.Common.Lists.{length, get_elem?}
use play.Common.Outcome.{Outcome, ret, faults, ◌>>=◌, ◌>>◌, Build, play_check}
use play.Common.Map.{find, insert, nat_key, bytes_eq, bytes_key}
use play.Ensure.Path.{get_first_act}

pub record ActEnsure : Type 0 where
  pub name : List ℕ
  pub active : Bool
  pub active_count : ℕ
  pub ready : Bool

-- What `activate` returns is whether the act is active then.
unfoldable pub activate : ActEnsure → ActEnsure
activate a =
    if a.active
    then a
    else if a.ready
    then record a { active = true; active_count = a.active_count + 1 }
    else a

unfoldable pub deactivate : ActEnsure → ActEnsure
deactivate a = if a.active then record a { active = false } else a

-- The creators of the factory, by the type of act: what the `on_activate` of an act that is created
-- with a name returns.
abbrev pub ActFactory : Type 0
ActFactory = List (List ℕ × (List ℕ → Bool))

-- A creator that is there stays.
unfoldable pub add_creator : List ℕ → (List ℕ → Bool) → ActFactory → ActFactory
add_creator type fn factory = insert type fn factory

unfoldable pub create : ActFactory → List ℕ → List ℕ → Option ActEnsure
create factory type name = elim (find type factory) [
  | none ↦ none
  | some fn ↦ some (record { name = name; active = false; active_count = 0; ready = fn name })
]

-- The loop of `load_acts` over the types and names of the flow: the acts, and what it returns.
unfoldable pub load_each :
    ActFactory → List (List ℕ × List ℕ) → List ActEnsure → List ActEnsure × Bool
load_each factory [] acts = (acts, true)
load_each factory ((type, name) ∷ flow) acts = elim (create factory type name) [
  | none ↦ (acts, false)
  | some a ↦ load_each factory flow (acts ++ (a ∷ []))
]

unfoldable pub load_acts :
    ActFactory → Option (List (List ℕ × List ℕ)) → List ActEnsure → List ActEnsure × Bool
load_acts factory none acts = (acts, false)
load_acts factory (some flow) acts = load_each factory flow acts

-- The act at an index, changed.
unfoldable pub update_at : (ActEnsure → ActEnsure) → ℕ → List ActEnsure → List ActEnsure
update_at f i [] = []
update_at f zero (a ∷ acts) = f a ∷ acts
update_at f (suc i) (a ∷ acts) = a ∷ update_at f i acts

pub record ActSerial : Type 0 where
  pub acts : List ActEnsure
  pub current_act_index : ℕ

-- `acts_[i]`, undefined for an index out of range.
unfoldable pub get_act : List ActEnsure → ℕ → Outcome ActEnsure
get_act acts i = elim (get_elem? acts i) [ none ↦ faults | some a ↦ ret a ]

unfoldable pub get_current_act : Build → List ActEnsure → ℕ → Outcome ActEnsure
get_current_act m acts i = do play_check m (ltb i (length acts)); get_act acts i

-- `on_activate` of a serial: the state, and what it returns.
unfoldable pub on_activate_serial :
    Build → ActFactory → Option (List (List ℕ × List ℕ)) → ActSerial → Outcome (ActSerial × Bool)
on_activate_serial m factory flow s =
    let (acts, loaded) = load_acts factory flow s.acts in
    if not loaded then ret (record s { acts = acts }, false) else do
      a ← get_current_act m acts s.current_act_index
      first ← get_act acts 0
      play_check m (s.current_act_index == 0)
      ret (record s { acts = update_at activate s.current_act_index acts }, (activate a).active)

unfoldable pub on_deactivate_serial : Build → ActSerial → Outcome ActSerial
on_deactivate_serial m s = do
  a ← get_current_act m s.acts s.current_act_index
  ret (record s { acts = update_at deactivate s.current_act_index s.acts })

unfoldable pub next : Build → ActSerial → Outcome ActSerial
next m s = do
  a ← get_current_act m s.acts s.current_act_index
  let acts = update_at deactivate s.current_act_index s.acts
  let i = s.current_act_index + 1
  if leb (length acts) i then ret (record s { acts = acts }) else do
    b ← get_current_act m acts i
    ret (record { acts = update_at activate i acts; current_act_index = i })

-- `find_act` from an index on.
unfoldable pub find_act : List ℕ → ℕ → List ActEnsure → Option ℕ
find_act name i [] = none
find_act name i (a ∷ acts) =
    let rest = find_act name (i + 1) acts in if bytes_eq a.name name then some i else rest

-- What `jump_child` does with the index that `find_act` gives.
unfoldable pub jump_to : Build → ActSerial → Option ℕ → Outcome ActSerial
jump_to m s none = ret s
jump_to m s (some i) = do
  a ← get_current_act m s.acts s.current_act_index
  let acts = update_at deactivate s.current_act_index s.acts
  b ← get_current_act m acts i
  ret (record { acts = update_at activate i acts; current_act_index = i })

unfoldable pub jump_child : Build → List ℕ → ActSerial → Outcome ActSerial
jump_child m path s = do name ← get_first_act path; jump_to m s (find_act name 0 s.acts)

-- The loop of the `on_activate` of a parallel, which ends at the first act that is not active then.
unfoldable pub activate_each : List ActEnsure → List ActEnsure × Bool
activate_each [] = ([], true)
activate_each (a ∷ acts) =
    let (rest, all) = activate_each acts in
    let a' = activate a in if a'.active then (a' ∷ rest, all) else (a' ∷ acts, false)

unfoldable pub on_activate_parallel :
    ActFactory → Option (List (List ℕ × List ℕ)) → List ActEnsure → List ActEnsure × Bool
on_activate_parallel factory flow acts =
    let (acts', loaded) = load_acts factory flow acts in
    if loaded then activate_each acts' else (acts', false)

unfoldable pub on_deactivate_parallel : List ActEnsure → List ActEnsure
on_deactivate_parallel [] = []
on_deactivate_parallel (a ∷ acts) = deactivate a ∷ on_deactivate_parallel acts

-- A parallel with `activate` and `deactivate` of act_ensure, as it has them.
pub record ActParallel : Type 0 where
  pub acts : List ActEnsure
  pub active : Bool
  pub active_count : ℕ

unfoldable pub activate_parallel :
    ActFactory → Option (List (List ℕ × List ℕ)) → ActParallel → ActParallel × Bool
unfolding on_activate_parallel
activate_parallel factory flow p =
    if p.active
    then (p, true)
    else (let done = on_activate_parallel factory flow p.acts in
        (
          record {
            acts = done.0;
            active = done.1;
            active_count = if done.1 then p.active_count + 1 else p.active_count;
          },
          done.1,
        ))

unfoldable pub deactivate_parallel : ActParallel → ActParallel
unfolding on_deactivate_parallel
deactivate_parallel p =
    if p.active then record p { acts = on_deactivate_parallel p.acts; active = false } else p
