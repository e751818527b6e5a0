-- ===== src/Alpha/Lobby/NoSession.antt =====
-- The session that a login comes with, through the tree of pulses.
use play.Common.{ℕ, ◌≡◌, refl, inl, Bool, false, some, List, [], ◌∷◌}
use play.Common.Tests.{◌==◌}
use play.Common.Outcome.{ret, aborts, faults, debug, release, play_check}
use play.Common.Map.{find, nat_key, bytes_key}
use play.Net.Pulse.Calls.{Receiver, Subscription}
use play.Net.Pulse.Tree.{Node, Heap, Post, subscriptions_of, publish}
use play.Net.Pulse.Tree.Delivery.{IsTree, Within, publish-reaches}
use play.Net.PulseFb.{session_through}
use play.Alpha.Messages.{Frame}
use play.Alpha.Lobby.{waiting, LobbyUser, LobbyRunner, send_user, start_user, on_auth_req_login}

-- A user as its constructor leaves it.
abbrev pub fresh_user : ℕ → LobbyUser
fresh_user se = record { session = se; state = waiting; room_frames = false }

abbrev pub auth_req_login_topic : ℕ
auth_req_login_topic = 201

-- The lobby's pulse is a child that was made for no session and has one receiver for logins. Any
-- login that the root publishes, of whatever session, is posted to that receiver with the null
-- session; with it, a login ends in the failed check of on_start in a build with assertions, and in
-- one without them every frame to its user is a call through a null pointer.
pub login_without_session :
    (pack : Frame → List ℕ) (sends : ℕ → ℕ → List ℕ → Bool → Bool) (h : Heap) (root : ℕ) (r : Node)
    (se c : ℕ) (n : Node) (cb : Receiver) (j : ℕ) (name password : List ℕ) (s : LobbyRunner)
    → IsTree h root r
    → find c h ≡ some n
    → (n.parent == 0) ≡ false
    → subscriptions_of n auth_req_login_topic ≡ record { session_key = 0; cb = cb } ∷ []
    → (posts : List Post) × (publish h root se auth_req_login_topic ≡ ret posts)
      × Within (record { strand_key = n.strand_key; cb = cb; session = 0 } ∷ []) posts
      × (on_auth_req_login pack sends debug j 0 name password s ≡ aborts)
      × ((frame : Frame) → send_user release (fresh_user 0) frame ≡ faults)
unfolding on_auth_req_login start_user send_user session_through play_check
login_without_session pack sends h root r se c n cb j name password s tree found below subs =
    let sub : Subscription = record { session_key = 0; cb = cb } in
    let (posts, published, within) =
      publish-reaches h root r se auth_req_login_topic c n sub [] [] tree found below subs
        (inl refl) in
    (posts, published, within, refl, λ frame. refl)
