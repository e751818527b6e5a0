-- ===== src/Alpha/Startup/Services.antt =====
-- Which services run after a start, and what a stop does to them.
use play.App.Services.{create_service, get_service}
use play.Common.Outcome.{ret, throws, faults, Build, play_check}
use play.Common.{ℕ, ◌≡◌, refl, ◌∙◌, ◌≢◌, ◌⊎◌, inl, inr, Bool, true, false, none, some, List, []}
use play.Common.Tests.{◌==◌, if◌then◌else◌, ==_iff, ==_refl, Bool-cases}
use play.Common.Map.{
  find, insert, find-insert_here, find-insert_keeps, find-insert_apart, nat_key, bytes_key,
}
use play.Alpha.Startup.{
  Service, lobby_runner, room_runner, user_master, room_master, Role, front, back, unknown,
  AlphaApp, new_app, make, start_services, start_body, catch_false, start, stop,
}

abbrev pub belongs : Role → Service → Bool
belongs front lobby_runner = true
belongs front room_runner = true
belongs front _ = false
belongs _ user_master = true
belongs _ room_master = true
belongs _ _ = false

abbrev pub known : Role → Bool
known unknown = false
known _ = true

-- Type indexes of different services differ.
pub record Indexes (index : Service → ℕ) : Type 0 where
  pub injective : (x y : Service) → index x ≡ index y → x ≡ y

module _ (index : Service → ℕ) (indexes : Indexes index) where
  apart : (x y : Service) → x ≢ y → (index x == index y) ≡ false
  apart x y differ = elim (Bool-cases (index x == index y)) [
    | inl same ↦ absurd (differ (indexes.injective x y ((==_iff (index x) (index y)).0 same)))
    | inr off ↦ off
  ]

  same : (x : Service) → (index x == index x) ≡ true
  same x = ==_refl (index x)

  abbrev two : Service → Service → List (ℕ × Service)
  two x y = insert (index y) y (insert (index x) x [])

  two_first : (x y : Service) → x ≢ y → find (index x) (two x y) ≡ some x
  unfolding find
  two_first x y differ =
      find-insert_keeps (index x) (index y) y x (insert (index x) x [])
        (find-insert_here (index x) x [] refl)

  two_second : (x y : Service) → x ≢ y → find (index y) (two x y) ≡ some y
  unfolding find
  two_second x y differ =
      find-insert_here (index y) y (insert (index x) x [])
        (find-insert_apart (index y) (index x) x [] (apart x y differ))

  two_neither : (x y z : Service) → x ≢ z → y ≢ z → find (index z) (two x y) ≡ none
  unfolding find
  two_neither x y z first_differs second_differs =
      find-insert_apart (index z) (index y) y (insert (index x) x []) (apart y z second_differs)
      ∙ find-insert_apart (index z) (index x) x [] (apart x z first_differs)

  services_of : Role → List (ℕ × Service)
  services_of front = two lobby_runner room_runner
  services_of _ = two user_master room_master

  services_lem :
      (role : Role) (z : Service)
      → get_service (index z) (services_of role) ≡ (if belongs role z then some z else none)
  unfolding get_service services_of
  services_lem front lobby_runner = two_first lobby_runner room_runner (λ e. cc)
  services_lem front room_runner = two_second lobby_runner room_runner (λ e. cc)
  services_lem front user_master = two_neither lobby_runner room_runner _ (λ e. cc) (λ e. cc)
  services_lem front room_master = two_neither lobby_runner room_runner _ (λ e. cc) (λ e. cc)
  services_lem back user_master = two_first user_master room_master (λ e. cc)
  services_lem back room_master = two_second user_master room_master (λ e. cc)
  services_lem back lobby_runner = two_neither user_master room_master _ (λ e. cc) (λ e. cc)
  services_lem back room_runner = two_neither user_master room_master _ (λ e. cc) (λ e. cc)
  services_lem unknown user_master = two_first user_master room_master (λ e. cc)
  services_lem unknown room_master = two_second user_master room_master (λ e. cc)
  services_lem unknown lobby_runner = two_neither user_master room_master _ (λ e. cc) (λ e. cc)
  services_lem unknown room_runner = two_neither user_master room_master _ (λ e. cc) (λ e. cc)

  started : Bool → Role → AlphaApp
  started owned role = record {
    owned = owned;
    has_runner = true;
    server_started = true;
    stopped = false;
    children = 2;
    services = services_of role;
  }

  -- The role's services were started, and the stop throws before it stops any of them, and stops none
  -- when it is called again.
  Runs : Build → Bool → Role → Type 0
  Runs m owned role =
      (a : AlphaApp) × (start index m role true true (new_app owned) ≡ ret (a, true))
      × ((z : Service)
          → get_service (index z) a.services ≡ (if belongs role z then some z else none))
      × ((stop a).1 ≡ throws)
      × ((stop (stop a).0).1 ≡ ret [])
      × ((stop a).0.services ≡ a.services)

  -- The server was started and nothing else, and the start reports failure.
  Fails : Build → Bool → Role → Type 0
  Fails m owned role =
      (a : AlphaApp) × (start index m role true true (new_app owned) ≡ ret (a, false))
      × (a.services ≡ [])
      × (a.server_started ≡ true)

  front-Runs : (m : Build) → Runs m true front
  unfolding Runs start start_body start_services make create_service catch_false started services_of
      stop
  front-Runs m = (started true front, refl, services_lem front, refl, refl, refl)

  back-Runs : (m : Build) (owned : Bool) → Runs m owned back
  unfolding Runs start start_body start_services make create_service catch_false started services_of
      stop
  back-Runs m owned = (started owned back, refl, services_lem back, refl, refl, refl)

  unknown-Runs :
      (m : Build) (owned : Bool) → play_check m (known unknown) ≡ ret tt → Runs m owned unknown
  unfolding Runs start start_body start_services make create_service catch_false started services_of
      stop
  unknown-Runs m owned checked =
      (started owned unknown, rw (checked) refl, services_lem unknown, refl, refl, refl)

  front-Fails : (m : Build) → Fails m false front
  unfolding Fails start start_body catch_false
  front-Fails m =
      (record (new_app false) { has_runner = true; server_started = true }, refl, refl, refl)

  -- The type indexes of different services differ, the server and the back pulse start, and the role
  -- passes the check. A front whose app no shared_ptr holds, as none holds the global one of main,
  -- fails to start: its server runs, and it has no service. Any other app starts with the two
  -- services of its role and no other; an unknown role, which passes in a build without assertions,
  -- is that of a back process. The stop of such an app throws, with the services still bound to its
  -- pulse, and none of them is stopped then or by the next stop.
  pub start-stop :
      (m : Build) (owned : Bool) (role : Role)
      → play_check m (known role) ≡ ret tt
      → ((owned ≡ false)
          × (role ≡ front)
          × ((a : AlphaApp) × (start index m role true true (new_app owned) ≡ ret (a, false))
              × (a.services ≡ [])
              × (a.server_started ≡ true)))
        ⊎ ((a : AlphaApp) × (start index m role true true (new_app owned) ≡ ret (a, true))
            × ((z : Service)
                → get_service (index z) a.services ≡ (if belongs role z then some z else none))
            × ((stop a).1 ≡ throws)
            × ((stop (stop a).0).1 ≡ ret [])
            × ((stop a).0.services ≡ a.services))
  unfolding Runs Fails
  start-stop m true front checked = inr (front-Runs m)
  start-stop m false front checked = inl (refl, refl, front-Fails m)
  start-stop m owned back checked = inr (back-Runs m owned)
  start-stop m owned unknown checked = inr (unknown-Runs m owned checked)

-- The stop of an app that was never started calls through a null pointer.
pub stop_unstarted : (owned : Bool) → (stop (new_app owned)).1 ≡ faults
unfolding stop
stop_unstarted owned = refl
