-- ===== src/Alpha/Lobby.antt =====
-- play/sample/alpha/app/front/lobby_runner.cpp and lobby_user_actor.cpp.
pub mod NoSession
pub mod Tests
use play.Common.{ℕ, Bool, true, false, not, Option, none, some, List, [], ◌∷◌, ◌==◌, if◌then◌else◌}
use play.Common.Outcome.{Outcome, ret, faults, ◌>>=◌, ◌>>◌, Build, play_check}
use play.Common.Map.{find, insert, assign, nat_key, bytes_key}
use play.App.ActorContainer.{Actor, Has, ActorContainer, add, find_by_name, del_by_id}
use play.Net.Pulse.Calls.{handler, Pulse, subscribe}
use play.Net.PulseFb.{session_through, call_fb, call_unanswered}
use play.Alpha.Messages.{
  ErrorCode, success, fail_backend_not_responding, fail_kickout_by_duplicate_login, Frame,
  res_login, syn_kickout, req_login_f2b, req_logout_f2b, Sent, to_session,
}

pub data LoginState : Type 0 where
  waiting logged_in : LoginState

-- What a user's actor keeps of its own; `room_frames` is whether its pulse is subscribed to the
-- requests for rooms.
pub record LobbyUser : Type 0 where
  pub session : ℕ
  pub state : LoginState
  pub room_frames : Bool

-- `back` is the pulse of the back process; the callback of a call has the id of its user.
pub record LobbyRunner : Type 0 where
  pub users : ActorContainer
  pub states : List (ℕ × LobbyUser)
  pub back : Pulse

abbrev pub user_container : Has
user_container = record { name = true; session = true; uuid = false }

-- The topics of the sample, and the receivers that a lobby subscribes.
abbrev pub req_login_topic : ℕ
req_login_topic = 202

abbrev pub syn_login_topic : ℕ
syn_login_topic = 203

abbrev pub syn_logout_topic : ℕ
syn_logout_topic = 207

abbrev pub req_logout_topic : ℕ
req_logout_topic = 206

abbrev pub lobby_user : ℕ → List ℕ → ℕ → Actor
lobby_user id name se = record { id = id; name = name; session_key = se; uuid = 0 }

-- A new pulse for the session. `established` has topic 1.
unfoldable pub on_established_back : ℕ → LobbyRunner → LobbyRunner
unfolding subscribe
on_established_back se s =
    let p : Pulse = record { session = se; subscriptions = []; calls = []; call_pairs = [] } in
    record s {
      back =
          subscribe (subscribe (subscribe p 1 (handler 1)) syn_login_topic (handler 2))
            syn_logout_topic (handler 3);
    }

unfoldable pub user_at : ℕ → List (ℕ × LobbyUser) → Outcome LobbyUser
user_at id states = elim (find id states) [ none ↦ faults | some u ↦ ret u ]

-- A frame to the user's session, through the user's pulse.
unfoldable pub send_user : Build → LobbyUser → Frame → Outcome (List Sent)
send_user m u frame = do se ← session_through m u.session; ret (to_session se frame ∷ [])

-- `do_login`: the user after it, what is sent, and whether its deletion is posted.
unfoldable pub do_login : Build → ErrorCode → LobbyUser → Outcome (LobbyUser × List Sent × Bool)
do_login m success u = elim u.state [
  | waiting ↦ do
    let u' = record u { state = logged_in }
    sent ← send_user m u' (res_login success)
    ret (record u' { room_frames = true }, sent, false)
  | logged_in ↦ do
    sent ← send_user m u (syn_kickout fail_kickout_by_duplicate_login)
    ret (u, sent, true)
]
do_login m ec u = do sent ← send_user m u (res_login ec); ret (u, sent, true)

-- The callback of the login call.
unfoldable pub on_login_fail_pending : Build → ℕ → LobbyRunner → Outcome (List Sent × ℕ)
unfolding send_user
on_login_fail_pending m id s = do
  u ← user_at id s.states
  sent ← send_user m u (res_login fail_backend_not_responding)
  ret (sent, id)

module _ (pack : Frame → List ℕ) (sends : ℕ → ℕ → List ℕ → Bool → Bool) where
  -- `on_start`: the callbacks that are run at once are returned.
  unfoldable pub start_user :
      Build → ℕ → List ℕ → List ℕ → LobbyUser → Pulse → Outcome (Pulse × List ℕ)
  unfolding call_fb
  start_user m id name password u back = do
    play_check m (not (u.session == 0))
    call_fb pack sends m back req_login_topic syn_login_topic (req_login_f2b name password) id false

  unfoldable pub on_auth_req_login :
      Build → ℕ → ℕ → List ℕ → List ℕ → LobbyRunner → Outcome (LobbyRunner × List ℕ)
  unfolding start_user
  on_auth_req_login m id se name password s = do
    let u : LobbyUser = record { session = se; state = waiting; room_frames = false }
    let users = (add user_container s.users (lobby_user id name se)).1
    called ← start_user m id name password u s.back
    ret (record { users = users; states = insert id u s.states; back = called.0 }, called.1)

  -- Also what `on_session_closed` does; the callback is empty.
  unfoldable pub on_auth_req_logout : Build → ℕ → List ℕ → LobbyRunner → Outcome (List ℕ)
  unfolding call_unanswered
  on_auth_req_logout m id name s =
      call_unanswered pack sends m s.back req_logout_topic (req_logout_f2b name) id false

-- The user that the name finds is told; the id whose deletion is posted, if any.
unfoldable pub syn_login_found :
    Build → ErrorCode → LobbyRunner → Option Actor → Outcome (LobbyRunner × List Sent × Option ℕ)
unfolding do_login
syn_login_found m ec s none = ret (s, [], none)
syn_login_found m ec s (some user) = do
  u ← user_at user.id s.states
  (u', sent, gone) ← do_login m ec u
  ret (record s { states = assign user.id u' s.states }, sent, if gone then some user.id else none)

unfoldable pub on_auth_syn_login :
    Build → ErrorCode → List ℕ → LobbyRunner → Outcome (LobbyRunner × List Sent × Option ℕ)
unfolding syn_login_found
on_auth_syn_login m ec name s = syn_login_found m ec s (find_by_name s.users name)

-- What `post_del_user` posts; the user's pulse still holds it.
unfoldable pub del_lobby_user : ℕ → LobbyRunner → Outcome LobbyRunner
del_lobby_user id s = do
  users ← del_by_id user_container s.users id
  ret (record s { users = users })
