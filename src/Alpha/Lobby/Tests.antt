-- ===== src/Alpha/Lobby/Tests.antt =====
-- A lobby with nobody, in a front process.
use play.Net.Pulse.Tree.{server, child, Node, Heap, Post, subscriptions_of, interested, publish}
use play.Net.Pulse.Tree.Delivery.{IsEntry, IsTree, Within}
use play.Alpha.Lobby.NoSession.{fresh_user, auth_req_login_topic, login_without_session}
use play.Common.Map.Entries.{All-find}
use play.Common.{
  ℕ, ◌≡◌, refl, subst, inl, inr, Bool, true, false, some, List, [], ◌∷◌, ◌==◌, ==_iff, Bool-cases,
  All,
}
use play.Common.Outcome.{ret, aborts, faults, debug, release}
use play.Common.Map.{find, nat_key, bytes_key, pair_eq, pair_key}
use play.App.ActorContainer.{init}
use play.Net.Pulse.Calls.{handler, Subscription, Pulse}
use play.Alpha.Messages.{Frame}
use play.Alpha.Lobby.{LobbyRunner, send_user, on_auth_req_login}

abbrev ann : List ℕ
ann = 97 ∷ 110 ∷ 110 ∷ []

abbrev no_bytes : Frame → List ℕ
no_bytes frame = 0 ∷ []

abbrev takes_all : ℕ → ℕ → List ℕ → Bool → Bool
takes_all se topic bytes encrypt = true

abbrev idle : Pulse
idle = record { session = 8; subscriptions = []; calls = []; call_pairs = [] }

abbrev nobody : LobbyRunner
nobody = record { users = init; states = []; back = idle }

-- The root pulse of a front, and the pulse of the lobby, for no session.
abbrev on_login : Subscription
on_login = record { session_key = 0; cb = handler 70 }

abbrev server_pulse : Node
server_pulse = record {
  pulse = record idle { session = 0 };
  mode = server;
  parent = 0;
  final = false;
  stopped = false;
  strand_key = 1;
  childs = (9, 9) ∷ [];
  interests = ((0, 201), (9, 9) ∷ []) ∷ [];
  self_interests = [];
}

abbrev lobby_pulse : Node
lobby_pulse = record {
  pulse = record idle { session = 0; subscriptions = (201, on_login ∷ []) ∷ [] };
  mode = child;
  parent = 1;
  final = false;
  stopped = false;
  strand_key = 3;
  childs = [];
  interests = [];
  self_interests = ((0, 201), true) ∷ [];
}

abbrev front_heap : Heap
front_heap = (1, server_pulse) ∷ (9, lobby_pulse) ∷ []

abbrev IsHeard : ℕ × Node → Type 0
IsHeard (c, n) =
    (pic : ℕ)
    → (n.parent == 0) ≡ false
    → All (λ s. find c (interested server_pulse s.session_key pic) ≡ some c)
        (subscriptions_of n pic)

lobby_receives : IsHeard (9, lobby_pulse)
unfolding find pair_eq
lobby_receives pic below = elim (Bool-cases (201 == pic)) [
  | inl b ↦
      subst
        (λ t.
          All (λ s. find 9 (interested server_pulse s.session_key t) ≡ some 9)
            (subscriptions_of lobby_pulse t))
        ((==_iff 201 pic).0 b) (refl, tt)
  | inr b ↦ rw (b) tt
]

front_heap-IsTree : IsTree front_heap 1 server_pulse
unfolding find pair_eq
front_heap-IsTree = record {
  top = refl;
  first = refl;
  live = λ key cmap e.
      All-find (λ kv. All (IsEntry front_heap) kv.1) key cmap server_pulse.interests e
        (((refl, (lobby_pulse, refl, refl)), tt), tt);
  heard = λ c n pic e below.
      All-find IsHeard c n front_heap e ((λ pic below. cc), (lobby_receives, tt)) pic below;
}

login_without_session_example :
    (posts : List Post) × (publish front_heap 1 700 auth_req_login_topic ≡ ret posts)
    × Within (record { strand_key = 3; cb = handler 70; session = 0 } ∷ []) posts
    × (on_auth_req_login no_bytes takes_all debug 2 0 ann [] nobody ≡ aborts)
    × ((frame : Frame) → send_user release (fresh_user 0) frame ≡ faults)
unfolding find pair_eq
login_without_session_example =
    login_without_session no_bytes takes_all front_heap 1 server_pulse 700 9 lobby_pulse
      (handler 70) 2 ann [] nobody front_heap-IsTree refl refl refl
