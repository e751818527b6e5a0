-- ===== src/Alpha/UserMaster.antt =====
-- play/sample/alpha/app/back/user_master.cpp and user_proxy.cpp.
pub mod Logout
pub mod Tests
use play.Common.{ℕ, Bool, true, false, Option, none, some, List}
use play.Common.Outcome.{Outcome, ret, ◌>>=◌, ◌>>◌, Build}
use play.App.ActorContainer.{
  Actor, Has, ActorContainer, add, find_by_id, find_by_name, del_by_id, destroy_actor,
}
use play.App.SessionContainer.{SessionContainer, bind, add_session, del_session, send_all}
use play.Net.PulseFb.{send_packed}
use play.Alpha.Messages.{success, Frame, syn_login, syn_logout}

abbrev pub user_container : Has
user_container = record { name = true; session = false; uuid = true }

pub record UserMaster : Type 0 where
  pub fronts : SessionContainer
  pub users : ActorContainer

-- The constructor of user_proxy; the id and the uuid are drawn.
abbrev pub user_proxy : ℕ → List ℕ → ℕ → Actor
user_proxy id name uuid = record { id = id; name = name; session_key = 0; uuid = uuid }

-- A frame with the topic it is sent under.
pub record TopicFrame : Type 0 where
  pub topic : ℕ
  pub frame : Frame

abbrev pub auth_syn_login_b2f : ℕ
auth_syn_login_b2f = 203

-- `on_start`: the sessions are sent to through the new pulse.
unfoldable pub start_master : Build → ℕ → UserMaster → Outcome UserMaster
start_master m pulse s = do fronts ← bind m pulse s.fronts; ret (record s { fronts = fronts })

unfoldable pub on_front_established : ℕ → UserMaster → UserMaster
on_front_established se s = record s { fronts = (add_session se s.fronts).1 }

unfoldable pub on_front_closed : ℕ → UserMaster → UserMaster
on_front_closed se s = record s { fronts = del_session se s.fronts }

-- What `post_del_user` posts. A proxy has no pulse that holds it, and is destroyed with its entry.
unfoldable pub del_proxy : ℕ → UserMaster → Outcome UserMaster
del_proxy id s = elim (find_by_id s.users id) [
  | none ↦ ret s
  | some user ↦ do
    users ← del_by_id user_container s.users id
    destroy_actor
    ret (record s { users = users })
]

module _ (pack : Frame → List ℕ) (sends : ℕ → ℕ → List ℕ → Bool → Bool) where
  -- A broadcast to the fronts: what is sent, and the sessions that are called.
  unfoldable pub broadcast : ℕ → Frame → UserMaster → Outcome (TopicFrame × List ℕ)
  broadcast topic frame s = do
    sent ← send_all (λ se. send_packed pack sends se topic frame false) s.fronts
    ret (record { topic = topic; frame = frame }, sent.1)

  unfoldable pub on_auth_req_login_f2b :
      ℕ → ℕ → List ℕ → UserMaster → Outcome (UserMaster × TopicFrame × List ℕ)
  unfolding broadcast
  on_auth_req_login_f2b id uuid name s = do
    let s' = record s { users = (add user_container s.users (user_proxy id name uuid)).1 }
    sent ← broadcast auth_syn_login_b2f (syn_login success name) s'
    ret (s', sent.0, sent.1)

  -- The id whose deletion is posted, and the broadcast; `do_logout` of the user does nothing.
  unfoldable pub logout_found :
      UserMaster → Option Actor → Outcome (Option (ℕ × TopicFrame × List ℕ))
  logout_found s none = ret none
  logout_found s (some user) = do
    sent ← broadcast auth_syn_login_b2f (syn_logout user.name) s
    ret (some (user.id, sent.0, sent.1))

  unfoldable pub on_auth_req_logout_f2b :
      List ℕ → UserMaster → Outcome (Option (ℕ × TopicFrame × List ℕ))
  unfolding logout_found
  on_auth_req_logout_f2b name s = logout_found s (find_by_name s.users name)
