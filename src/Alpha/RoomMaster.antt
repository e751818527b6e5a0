-- ===== src/Alpha/RoomMaster.antt =====
-- play/sample/alpha/app/back/room_master.cpp and back/room/room_runner_property.hpp. What std::sort
-- makes of a list is an argument.
use play.Common.{
  ℕ, suc, ◌≡◌, refl, ap, ◌∙◌, inl, inr, Bool, false, not, Option, List, [], ◌∷◌, arith,
}
use play.Common.Tests.{ltb, if◌then◌else◌, Bool-cases}
use play.Common.Lists.{length, is_empty}
use play.Common.Outcome.{
  Outcome, ret, aborts, faults, ◌>>◌, Build, debug, release, play_check, play_check-true,
}
use play.Common.Map.{insert, nat_key, bytes_key}
use play.Net.PulseFb.{session_through}
use play.Alpha.Messages.{fail_room_runner_not_found, RoomInfo, Frame, res_create, Sent}
use play.Alpha.RoomRunner.{send_through}

-- No operation of the property adds a room.
pub record RoomRunnerProperty : Type 0 where
  pub remote_addr : List ℕ
  pub session : ℕ
  pub room_count : ℕ

-- `pulse` is the session of the pulse, which `on_start` leaves null.
pub record RoomMaster : Type 0 where
  pub pulse : ℕ
  pub room_runners : List (ℕ × RoomRunnerProperty)

unfoldable pub on_room_syn_runner_up : ℕ → List ℕ → RoomMaster → RoomMaster
on_room_syn_runner_up se remote_addr s =
    let runner : RoomRunnerProperty = record {
      remote_addr = remote_addr;
      session = se;
      room_count = 0;
    } in
    record s { room_runners = insert se runner s.room_runners }

abbrev runners_of : List (ℕ × RoomRunnerProperty) → List RoomRunnerProperty
runners_of [] = []
runners_of ((key, runner) ∷ rest) = runner ∷ runners_of rest

-- The order that the code sorts by.
abbrev more_rooms : RoomRunnerProperty → RoomRunnerProperty → Bool
more_rooms r1 r2 = ltb r2.room_count r1.room_count

-- `PLAY_CHECK(session)` of a null session, and the call through it.
abbrev pub null_call : {A : Type 0} → Build → Outcome A
null_call debug = aborts
null_call release = faults

null_call_lem : (m : Build) (frame : Frame) → send_through m 0 frame ≡ null_call m
unfolding send_through session_through play_check
null_call_lem debug frame = refl
null_call_lem release frame = refl

is_empty-length :
    {A B : Type 0} (xs : List A) (ys : List B) → length xs ≡ length ys → is_empty xs ≡ is_empty ys
is_empty-length [] [] e = refl
is_empty-length [] (y ∷ ys) e = absurd (omega arith)
is_empty-length (x ∷ xs) [] e = absurd (omega arith)
is_empty-length (x ∷ xs) (y ∷ ys) e = refl

length-runners_of : (rs : List (ℕ × RoomRunnerProperty)) → length (runners_of rs) ≡ length rs
length-runners_of [] = refl
length-runners_of ((key, runner) ∷ rest) = ap suc (length-runners_of rest)

module _
    (sort : (RoomRunnerProperty → RoomRunnerProperty → Bool)
      → List RoomRunnerProperty
      → List RoomRunnerProperty) where
  -- What is sent. The sorted runners are only checked.
  unfoldable pub on_room_req_create_f2b :
      Build → List ℕ → Option RoomInfo → RoomMaster → Outcome (List Sent)
  on_room_req_create_f2b m user_name room s =
      if is_empty s.room_runners
      then send_through m s.pulse (res_create fail_room_runner_not_found user_name room)
      else play_check m (not (is_empty (sort more_rooms (runners_of s.room_runners)))) >> ret []

  -- If std::sort keeps the length of a list, and while the pulse has no session: a request to create
  -- a room is not answered and not passed on where a room runner is up, and where none is, it ends in
  -- the failed check of the session, or in the call through a null pointer.
  pub create_unanswered :
      (m : Build) (user_name : List ℕ) (room : Option RoomInfo) (s : RoomMaster)
      → ((less : RoomRunnerProperty → RoomRunnerProperty → Bool) (rs : List RoomRunnerProperty)
          → length (sort less rs) ≡ length rs)
      → s.pulse ≡ 0
      → on_room_req_create_f2b m user_name room s
        ≡ (if is_empty s.room_runners then null_call m else ret [])
  unfolding on_room_req_create_f2b
  create_unanswered m user_name room s keeps_length unbound =
      elim (Bool-cases (is_empty s.room_runners)) [
        | inl e ↦
            rw (e, unbound) (null_call_lem m (res_create fail_room_runner_not_found user_name room))
        | inr e ↦
            let rs = runners_of s.room_runners in
            let full : is_empty (sort more_rooms rs) ≡ false =
              is_empty-length (sort more_rooms rs) s.room_runners
                (keeps_length more_rooms rs ∙ length-runners_of s.room_runners)
              ∙ e in
            rw (e, full) (rw (play_check-true m) refl)
      ]
