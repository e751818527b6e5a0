-- ===== src/Alpha/RoomRunner/Crashes.antt =====
-- Which requests for a room a front process survives.
use play.Common.{ℕ, ◌≡◌, refl, Option, none, some, List}
use play.Common.Outcome.{Outcome, faults, Build}
use play.Alpha.Messages.{RoomInfo}
use play.Alpha.RoomRunner.{RoomRunner, room_info_of, on_room_req_create}

-- No request to create a room returns: the room of the answer is written through a null pointer.
pub create-never :
    (to_string : ℕ → List ℕ) (m : Build) (id uuid : ℕ) (requested : Option RoomInfo)
    (s : RoomRunner)
    → on_room_req_create to_string m id uuid requested s ≡ faults
unfolding on_room_req_create room_info_of
create-never to_string m id uuid none s = refl
create-never to_string m id uuid (some info) s = refl
