-- ===== src/Alpha/Startup.antt =====
-- play/sample/alpha/app/app.cpp: which services a process starts and stops. The type indexes of the
-- services, and what `start` of a pulse returns, are arguments.
pub mod Services
pub mod Tests
use play.Common.{ℕ, ◌+◌, Bool, true, false, not, List, []}
use play.Common.Tests.{ltb, if◌then◌else◌}
use play.Common.Outcome.{Outcome, ret, aborts, throws, faults, ◌>>◌, Build, play_check}
use play.App.Services.{create_service, for_each_service}

pub data Service : Type 0 where
  lobby_runner room_runner user_master room_master : Service

pub data Role : Type 0 where
  front back unknown : Role

-- `owned` is whether a shared_ptr holds the app: else `shared_from_this` throws. `children` counts the
-- pulses that are bound to `pulse_`: the `on_start` of each service binds one.
pub record AlphaApp : Type 0 where
  pub owned : Bool
  pub has_runner : Bool
  pub server_started : Bool
  pub stopped : Bool
  pub children : ℕ
  pub services : List (ℕ × Service)

-- As the constructor leaves it.
abbrev pub new_app : Bool → AlphaApp
new_app owned = record {
  owned = owned;
  has_runner = false;
  server_started = false;
  stopped = false;
  children = 0;
  services = [];
}

module _ (index : Service → ℕ) where
  -- create_service and then `start` of what get_service finds.
  unfoldable pub make : Service → AlphaApp → AlphaApp
  make service a = record a {
    services = (create_service (index service) service a.services).1;
    children = a.children + 1;
  }

  unfoldable pub start_services : Build → Role → Bool → AlphaApp → Outcome (AlphaApp × Bool)
  unfolding make
  start_services m front back_starts a = ret (make room_runner (make lobby_runner a), back_starts)
  start_services m back back_starts a = ret (make room_master (make user_master a), true)
  start_services m unknown back_starts a =
      play_check m false >> ret (make room_master (make user_master a), true)

  -- The body of the `try`. A front subscribes with `shared_from_this`.
  unfoldable pub start_body :
      Build → Role → Bool → Bool → AlphaApp → AlphaApp × Outcome (AlphaApp × Bool)
  unfolding start_services
  start_body m role server_starts back_starts a =
      let begun = record a { stopped = false; has_runner = true; server_started = server_starts } in
      (
        begun,
        if not server_starts then ret (begun, false) else (elim role [
          | front ↦ if begun.owned then start_services m front back_starts begun else throws
          | back ↦ start_services m back back_starts begun
          | unknown ↦ start_services m unknown back_starts begun
        ]),
      )

  -- An exception is caught, and the app stays as it was made so far.
  unfoldable pub catch_false : AlphaApp → Outcome (AlphaApp × Bool) → Outcome (AlphaApp × Bool)
  catch_false begun (ret r) = ret r
  catch_false begun aborts = aborts
  catch_false begun throws = ret (begun, false)
  catch_false begun faults = faults

  unfoldable pub start : Build → Role → Bool → Bool → AlphaApp → Outcome (AlphaApp × Bool)
  unfolding start_body catch_false
  start m role server_starts back_starts a =
      let body = start_body m role server_starts back_starts a in catch_false body.0 body.1

-- The app after it, and the services that are stopped, in the order of their type indexes. `stop` of
-- `pulse_` throws while a child is bound, and comes before the services.
unfoldable pub stop : AlphaApp → AlphaApp × Outcome (List Service)
stop a = if a.stopped then (a, ret []) else (
  record a { stopped = true },
  if not a.has_runner
      then faults
      else (if ltb 0 a.children
          then throws
          else ret (for_each_service (λ service. service) a.services)),
)
