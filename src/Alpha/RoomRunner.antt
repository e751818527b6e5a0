-- ===== src/Alpha/RoomRunner.antt =====
-- play/sample/alpha/app/front/room_runner.cpp. A uuid is a number; its text, and what
-- `uuid::from` makes of a text, an exception included, are arguments.
pub mod Crashes
pub mod Empty
pub mod Tests
use play.Common.{ℕ, true, false, Option, none, some, List, [], ◌∷◌}
use play.Common.Outcome.{Outcome, ret, faults, ◌>>=◌, ◌>>◌, Build}
use play.Common.Map.{find, insert, assign, nat_key, bytes_key}
use play.App.ActorContainer.{Actor, Has, ActorContainer, init, add, find_by_name, find_by_uuid}
use play.Net.PulseFb.{session_through}
use play.Alpha.Messages.{
  success, fail_room_not_found, RoomInfo, Frame, res_reserve, res_checkin, res_create, Sent,
  to_session,
}
use play.Alpha.Room.{RoomActor, do_reserve, do_checkin}
use play.Alpha.Room.Capacity.{new_room}

abbrev pub room_container : Has
room_container = record { name = true; session = false; uuid = true }

-- The rooms, the state of each under its id, and the sessions of the two pulses, 0 for none.
pub record RoomRunner : Type 0 where
  pub rooms : ActorContainer
  pub states : List (ℕ × RoomActor)
  pub pulse_front : ℕ
  pub pulse_back : ℕ

-- `on_start`: neither pulse is made with a session.
unfoldable pub start_runner : RoomRunner → RoomRunner
start_runner s = record s { pulse_front = 0; pulse_back = 0 }

-- As `on_start` leaves a new one.
unfoldable pub new_runner : RoomRunner
unfolding start_runner
new_runner = start_runner (record { rooms = init; states = []; pulse_front = 0; pulse_back = 0 })

-- A new back pulse, with the session.
unfoldable pub on_established_back : ℕ → RoomRunner → RoomRunner
on_established_back se s = record s { pulse_back = se }

-- `->` on a pointer to a room_info.
unfoldable pub room_info_of : Option RoomInfo → Outcome RoomInfo
room_info_of none = faults
room_info_of (some info) = ret info

unfoldable pub send_through : Build → ℕ → Frame → Outcome (List Sent)
send_through m session frame = do se ← session_through m session; ret (to_session se frame ∷ [])

-- The state of a room that is held.
unfoldable pub room_at : ℕ → List (ℕ × RoomActor) → Outcome RoomActor
room_at id states = elim (find id states) [ none ↦ faults | some r ↦ ret r ]

abbrev pub room_as_actor : ℕ → List ℕ → ℕ → Actor
room_as_actor id name uuid = record { id = id; name = name; session_key = 0; uuid = uuid }

-- The room of a new res_createT.
abbrev new_res_create_room : Option RoomInfo
new_res_create_room = none

module _ (to_string : ℕ → List ℕ) where
  unfoldable pub on_room_req_create :
      Build → ℕ → ℕ → Option RoomInfo → RoomRunner → Outcome (RoomRunner × List Sent)
  on_room_req_create m id uuid requested s = do
    info ← room_info_of requested
    let ra = new_room info.name info.capacity (to_string uuid)
    let s' = record s {
      rooms = (add room_container s.rooms (room_as_actor id info.name uuid)).1;
      states = insert id ra s.states;
    }
    res ← room_info_of new_res_create_room
    let filled : RoomInfo = record res {
      name = info.name;
      uuid = ra.uuid;
      current = 0;
      capacity = info.capacity;
    }
    sent ← send_through m s.pulse_back (res_create success [] (some filled))
    ret (s', sent)

-- The request has the uuid as text, and `find` takes a text for a name.
unfoldable pub reserve_found :
    Build → ℕ → List ℕ → List ℕ → RoomRunner → Option Actor → Outcome (RoomRunner × List Sent)
reserve_found m id user_name uuid s none = do
  let info : RoomInfo = record { name = []; capacity = 0; current = 0; uuid = uuid }
  sent ← send_through m s.pulse_back (res_reserve fail_room_not_found user_name (some info))
  ret (s, sent)
reserve_found m id user_name uuid s (some room) = do
  r ← room_at room.id s.states
  let done = do_reserve id user_name r
  ret (record s { states = assign room.id done.0 s.states }, done.1)

unfoldable pub on_room_req_reserve :
    Build → ℕ → List ℕ → List ℕ → RoomRunner → Outcome (RoomRunner × List Sent)
unfolding reserve_found
on_room_req_reserve m id user_name uuid s =
    reserve_found m id user_name uuid s (find_by_name s.rooms uuid)

module _ (from : List ℕ → Outcome ℕ) where
  unfoldable pub checkin_at :
      Build → ℕ → ℕ → List ℕ → RoomRunner → Option Actor → Outcome (RoomRunner × List Sent)
  checkin_at m id se user_name s none = do
    sent ← send_through m s.pulse_front (res_checkin fail_room_not_found [])
    ret (s, sent)
  checkin_at m id se user_name s (some room) = do
    r ← room_at room.id s.states
    done ← do_checkin id se user_name r
    ret (record s { states = assign room.id done.0 s.states }, done.1)

  unfoldable pub on_room_req_checkin :
      Build → ℕ → ℕ → List ℕ → Option RoomInfo → RoomRunner → Outcome (RoomRunner × List Sent)
  unfolding checkin_at
  on_room_req_checkin m id se user_name requested s = do
    info ← room_info_of requested
    uuid ← from info.uuid
    checkin_at m id se user_name s (find_by_uuid s.rooms uuid)
