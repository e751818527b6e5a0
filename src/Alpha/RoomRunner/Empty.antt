-- ===== src/Alpha/RoomRunner/Empty.antt =====
-- What a front process answers, whatever it was asked before.
use play.Common.{ℕ, ◌≡◌, Option, List}
use play.Common.Outcome.{Outcome, ret, Build}
use play.Common.Map.{nat_key, bytes_key}
use play.App.ActorContainer.{init}
use play.Alpha.Messages.{RoomInfo, Sent}
use play.Alpha.RoomRunner.{
  RoomRunner, on_established_back, on_room_req_create, on_room_req_reserve, on_room_req_checkin,
}

module _ (to_string : ℕ → List ℕ) (from : List ℕ → Outcome ℕ) (m : Build) where
  -- What happens to the runner of a front process, where it returns.
  pub data RunnerStep : RoomRunner → RoomRunner → Type 0 where
    established : (se : ℕ) (s : RoomRunner) → RunnerStep s (on_established_back se s)
    creates :
        (id uuid : ℕ) (requested : Option RoomInfo) (s s' : RoomRunner) (out : List Sent)
        → on_room_req_create to_string m id uuid requested s ≡ ret (s', out)
        → RunnerStep s s'
    reserves :
        (id : ℕ) (user_name uuid : List ℕ) (s s' : RoomRunner) (out : List Sent)
        → on_room_req_reserve m id user_name uuid s ≡ ret (s', out)
        → RunnerStep s s'
    checks_in :
        (id se : ℕ) (user_name : List ℕ) (requested : Option RoomInfo) (s s' : RoomRunner)
        (out : List Sent)
        → on_room_req_checkin from m id se user_name requested s ≡ ret (s', out)
        → RunnerStep s s'

  pub data RunnerSteps : RoomRunner → RoomRunner → Type 0 where
    is_new : (s : RoomRunner) → RunnerSteps s s
    then_does : (r s t : RoomRunner) → RunnerSteps r s → RunnerStep s t → RunnerSteps r t

  -- It has no room, and its front pulse no session.
  record IsEmpty (s : RoomRunner) : Type 0 where
    no_rooms : s.rooms ≡ init
    no_session : s.pulse_front ≡ 0
