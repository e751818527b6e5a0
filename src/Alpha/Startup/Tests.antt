-- ===== src/Alpha/Startup/Tests.antt =====
-- Type indexes in the order of the services' names.
use play.Common.{ℕ, zero, suc, ◌≡◌, refl, sym, ap, ◌∙◌, ◌⊎◌, true, false, none, some, []}
use play.Common.Tests.{if◌then◌else◌}
use play.Common.Outcome.{ret, throws, debug, play_check}
use play.App.Services.{get_service}
use play.Alpha.Startup.{
  Service, lobby_runner, room_runner, user_master, room_master, front, AlphaApp, new_app, start,
  stop,
}
use play.Alpha.Startup.Services.{belongs, Indexes, start-stop}

abbrev place_of : Service → ℕ
place_of lobby_runner = 0
place_of room_runner = 1
place_of user_master = 2
place_of room_master = 3

abbrev service_at : ℕ → Service
service_at zero = lobby_runner
service_at (suc zero) = room_runner
service_at (suc (suc zero)) = user_master
service_at (suc (suc (suc n))) = room_master

service_at_place : (x : Service) → service_at (place_of x) ≡ x
service_at_place lobby_runner = refl
service_at_place room_runner = refl
service_at_place user_master = refl
service_at_place room_master = refl

places-Indexes : Indexes place_of
places-Indexes = record {
  injective = λ x y e. sym (service_at_place x) ∙ ap service_at e ∙ service_at_place y;
}

-- The front of main, whose app is global.
start-stop_example :
    ((false ≡ false)
      × (front ≡ front)
      × ((a : AlphaApp) × (start place_of debug front true true (new_app false) ≡ ret (a, false))
          × (a.services ≡ [])
          × (a.server_started ≡ true)))
    ⊎ ((a : AlphaApp) × (start place_of debug front true true (new_app false) ≡ ret (a, true))
        × ((z : Service)
            → get_service (place_of z) a.services ≡ (if belongs front z then some z else none))
        × ((stop a).1 ≡ throws)
        × ((stop (stop a).0).1 ≡ ret [])
        × ((stop a).0.services ≡ a.services))
unfolding play_check
start-stop_example = start-stop place_of places-Indexes debug false front refl
