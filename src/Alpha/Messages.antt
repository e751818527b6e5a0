-- ===== src/Alpha/Messages.antt =====
-- The frames of the sample that the modelled handlers send: play/sample/alpha/share/fb.
use play.Common.{ℕ, ◌%◌, Option, List}

-- The code's numbers are not used.
pub data ErrorCode : Type 0 where
  success fail_backend_not_responding fail_kickout_by_duplicate_login : ErrorCode
  fail_room_not_found fail_room_full fail_room_user_not_found fail_room_runner_not_found : ErrorCode

-- `capacity` and `current` have 16 bits.
pub record RoomInfo : Type 0 where
  pub name : List ℕ
  pub capacity : ℕ
  pub current : ℕ
  pub uuid : List ℕ

abbrev pub u16 : ℕ → ℕ
u16 n = n % 65536

-- A table inside a frame is a pointer that may be null. `room_syn_leave_f2b` is a `res_leave` too.
pub data Frame : Type 0 where
  res_reserve : ErrorCode → List ℕ → Option RoomInfo → Frame
  res_checkin : ErrorCode → List (List ℕ) → Frame
  res_chat : ErrorCode → Frame
  syn_chat : List ℕ → List ℕ → Frame
  res_leave syn_leave : List ℕ → Option RoomInfo → Frame
  res_create : ErrorCode → List ℕ → Option RoomInfo → Frame
  res_login syn_kickout : ErrorCode → Frame
  syn_login : ErrorCode → List ℕ → Frame
  syn_logout : List ℕ → Frame
  req_login_f2b : List ℕ → List ℕ → Frame
  req_logout_f2b : List ℕ → Frame

-- Where a frame goes: to the session of a key, or to the session of the back pulse.
pub data Sent : Type 0 where
  to_session : ℕ → Frame → Sent
  to_back : Frame → Sent
