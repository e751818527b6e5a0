-- ===== src/Net/Pulse/Tree/Tests.antt =====
-- A root, its child and the child of that child, which is subscribed to topic 7 for no session.
use play.Common.{ℕ, suc, ◌≡◌, refl, subst, inl, inr, true, false, some, List, [], ◌∷◌}
use play.Common.Tests.{◌==◌, ==_iff, Bool-cases}
use play.Common.Lists.{length, All}
use play.Common.Outcome.{ret, faults, debug}
use play.Common.Map.{find, nat_key, pair_eq, pair_key}
use play.Common.Map.Entries.{All-find}
use play.Net.Pulse.Calls.{handler, Subscription, Pulse}
use play.Net.Pulse.Tree.{
  server, child, Node, Heap, node, get_root, subscribe_at, destroy, Post, posts_of,
  subscriptions_of, interested, for_each, dispatch_with, dispatch, publish,
}
use play.Net.Pulse.Tree.Delivery.{
  IsEntry, IsTree, Within, publish-reaches, IsWanted, publish-IsWanted,
}
use play.Net.Pulse.Tree.Upkeep.{subscribe_at-IsTree}
use play.Net.Pulse.Tree.Dangling.{destroy-publish}

abbrev no_pulse : Pulse
no_pulse = record { session = 0; subscriptions = []; calls = []; call_pairs = [] }

abbrev seven : Subscription
seven = record { session_key = 0; cb = handler 70 }

abbrev top_pulse : Node
top_pulse = record {
  pulse = no_pulse;
  mode = server;
  parent = 0;
  final = false;
  stopped = false;
  strand_key = 1;
  childs = (5, 5) ∷ [];
  interests = ((0, 7), (9, 9) ∷ []) ∷ [];
  self_interests = [];
}

abbrev lobby : Node
lobby = record {
  pulse = no_pulse;
  mode = child;
  parent = 1;
  final = false;
  stopped = false;
  strand_key = 2;
  childs = (9, 9) ∷ [];
  interests = [];
  self_interests = [];
}

abbrev room : Node
room = record {
  pulse = record no_pulse { subscriptions = (7, seven ∷ []) ∷ [] };
  mode = child;
  parent = 5;
  final = false;
  stopped = false;
  strand_key = 3;
  childs = [];
  interests = [];
  self_interests = ((0, 7), true) ∷ [];
}

abbrev three : Heap
three = (1, top_pulse) ∷ (5, lobby) ∷ (9, room) ∷ []

abbrev Heard : ℕ × Node → Type 0
Heard kn =
    (pic : ℕ)
    → (kn.1.parent == 0) ≡ false
    → All (λ s. find kn.0 (interested top_pulse s.session_key pic) ≡ some kn.0)
        (subscriptions_of kn.1 pic)

room-Heard : Heard (9, room)
unfolding find pair_eq
room-Heard pic below = elim (Bool-cases (7 == pic)) [
  | inl b ↦
      subst
        (λ t.
          All (λ s. find 9 (interested top_pulse s.session_key t) ≡ some 9)
            (subscriptions_of room t))
        ((==_iff 7 pic).0 b) (refl, tt)
  | inr b ↦ rw (b) tt
]

three-Heard : All Heard three
unfolding find pair_eq
three-Heard = (λ pic below. cc, (λ pic below. tt, (room-Heard, tt)))

three-IsTree : IsTree three 1 top_pulse
unfolding find pair_eq
three-IsTree = record {
  top = refl;
  first = refl;
  live = λ key cmap e.
      All-find (λ kv. All (IsEntry three) kv.1) key cmap top_pulse.interests e
        (((refl, (room, refl, refl)), tt), tt);
  heard = λ c n pic e below. All-find Heard c n three e three-Heard pic below;
}

publish-reaches_example :
    (posts : List Post) × (publish three 1 4 7 ≡ ret posts)
    × Within (record { strand_key = 3; cb = handler 70; session = 0 } ∷ []) posts
unfolding find pair_eq
publish-reaches_example =
    publish-reaches three 1 top_pulse 4 7 9 room seven [] [] three-IsTree refl refl refl (inl refl)

abbrev one_post : List Post
one_post = record { strand_key = 3; cb = handler 70; session = 0 } ∷ []

publish-three : publish three 1 4 7 ≡ ret one_post
unfolding dispatch dispatch_with node find pair_eq for_each posts_of
publish-three = refl

publish-IsWanted_test : All (IsWanted three 4 7) one_post
publish-IsWanted_test = publish-IsWanted three 1 top_pulse 4 7 one_post three-IsTree publish-three

three_root : get_root (suc (length three)) three 5 ≡ ret 1
unfolding get_root find
three_root = refl

subscribe_at-IsTree_example :
    (h' : Heap) × (r' : Node) × (subscribe_at debug three 5 8 (handler 80) ≡ ret h')
    × IsTree h' 1 r'
    × ((n' : Node) × (find 5 h' ≡ some n')
        × (subscriptions_of n' 8 ≡ record { session_key = 0; cb = handler 80 } ∷ []))
unfolding find pair_eq
subscribe_at-IsTree_example =
    subscribe_at-IsTree debug three 1 top_pulse 5 lobby 8 (handler 80) three-IsTree refl refl refl
      three_root

destroy-publish_example :
    (h' : Heap) × (destroy debug three 9 ≡ ret h') × (publish h' 1 4 7 ≡ faults)
unfolding find pair_eq
destroy-publish_example =
    destroy-publish debug three 1 top_pulse 9 room lobby 4 7 three-IsTree refl refl refl refl refl
      refl refl refl refl refl refl
