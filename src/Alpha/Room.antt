-- ===== src/Alpha/Room.antt =====
-- play/sample/alpha/app/front/room_actor.cpp and room_user_actor.cpp.
pub mod Capacity
pub mod Checkin
pub mod Tests
use play.Common.{ℕ, ◌+◌, true, false, Option, none, some, List, [], ◌∷◌}
use play.Common.Tests.{ltb, ◌==◌, if◌then◌else◌}
use play.Common.Outcome.{Outcome, ret, faults, ◌>>=◌, ◌>>◌}
use play.App.ActorContainer.{
  Actor, Has, ActorContainer, add, find_by_name, size, visited, del_by_id, del_by_name,
  destroy_actor,
}
use play.Alpha.Messages.{
  ErrorCode, success, fail_room_full, fail_room_user_not_found, RoomInfo, u16, Frame, res_reserve,
  res_checkin, res_chat, syn_chat, res_leave, syn_leave, Sent, to_session, to_back,
}

-- The template arguments of `user_container` and `user_pending_container`.
abbrev pub user_container : Has
user_container = record { name = true; session = true; uuid = false }

abbrev pub user_pending_container : Has
user_pending_container = record { name = true; session = false; uuid = false }

-- `uuid` is the text that `get_uuid_string` gives.
pub record RoomActor : Type 0 where
  pub name : List ℕ
  pub capacity : ℕ
  pub uuid : List ℕ
  pub users : ActorContainer
  pub pending_users : ActorContainer

-- The constructor of room_user_actor; the id comes from the snowflake, and a reserved user has no
-- session, whose key is then 0.
abbrev pub room_user : ℕ → List ℕ → ℕ → Actor
room_user id name session_key = record { id = id; name = name; session_key = session_key; uuid = 0 }

unfoldable pub send_res_reserve : List ℕ → ErrorCode → RoomActor → Sent
send_res_reserve user_name ec r = to_back (
    res_reserve ec user_name (
      some (record {
        name = [];
        capacity = u16 r.capacity;
        current = u16 (size r.users + size r.pending_users);
        uuid = r.uuid;
      })))

unfoldable pub do_reserve : ℕ → List ℕ → RoomActor → RoomActor × List Sent
do_reserve id user_name r =
    if ltb (size r.users + size r.pending_users) r.capacity
    then (let r' = record r {
      pending_users = (add user_pending_container r.pending_users (room_user id user_name 0)).1;
    } in
        (r', send_res_reserve user_name success r' ∷ []))
    else (r, send_res_reserve user_name fail_room_full r ∷ [])

abbrev pub names_of : List Actor → List (List ℕ)
names_of [] = []
names_of (a ∷ as') = a.name ∷ names_of as'

abbrev pub to_each : Frame → List Actor → List Sent
to_each frame [] = []
to_each frame (a ∷ as') = to_session a.session_key frame ∷ to_each frame as'

unfoldable pub do_chat : List ℕ → RoomActor → List Sent
do_chat message r = to_each (syn_chat [] message) (visited r.users.actors)

-- To a null session it is a call through a null pointer. The pending user has no pulse that holds it,
-- and is destroyed with the variable that found it. `start` of the new user makes its pulse, through
-- which the room sends to it.
unfoldable pub checkin_found :
    ℕ → ℕ → List ℕ → RoomActor → Option Actor → Outcome (RoomActor × List Sent)
checkin_found id se user_name r none =
    if se == 0
    then faults
    else ret (r, to_session se (res_checkin fail_room_user_not_found []) ∷ [])
checkin_found id se user_name r (some reserved) = do
  let users = (add user_container r.users (room_user id user_name se)).1
  pending_users ← del_by_name user_pending_container r.pending_users user_name
  let r' = record r { users = users; pending_users = pending_users }
  let out = to_session se (res_checkin success (names_of (visited users.actors))) ∷ []
  if se == 0 then faults else (destroy_actor >> ret (r', out))

unfoldable pub do_checkin : ℕ → ℕ → List ℕ → RoomActor → Outcome (RoomActor × List Sent)
unfolding checkin_found
do_checkin id se user_name r =
    checkin_found id se user_name r (find_by_name r.pending_users user_name)

-- What `post_del_user` posts; the user's pulse still holds it.
unfoldable pub del_user : ℕ → RoomActor → Outcome RoomActor
del_user id r = do users ← del_by_id user_container r.users id; ret (record r { users = users })

unfoldable pub fill_room_info : RoomActor → RoomInfo
fill_room_info r = record {
  name = r.name;
  capacity = u16 r.capacity;
  current = u16 (size r.users);
  uuid = r.uuid;
}

unfoldable pub on_req_chat : Actor → List ℕ → RoomActor → List Sent
unfolding do_chat
on_req_chat user message r = to_session user.session_key (res_chat success) ∷ do_chat message r

unfoldable pub send_syn_leave : Actor → RoomActor → Sent
send_syn_leave user r = to_back (syn_leave user.name (some (fill_room_info r)))

-- The frames of a leave, and the id whose deletion it posts.
unfoldable pub on_req_leave : Actor → RoomActor → List Sent × ℕ
unfolding send_syn_leave
on_req_leave user r =
    let res = res_leave user.name (some (fill_room_info r)) in
    (send_syn_leave user r ∷ to_session user.session_key res ∷ to_back res ∷ [], user.id)

unfoldable pub on_user_closed : Actor → RoomActor → List Sent × ℕ
unfolding send_syn_leave
on_user_closed user r = (send_syn_leave user r ∷ [], user.id)
