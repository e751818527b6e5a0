-- ===== src/App/ActorContainer.antt =====
-- play/app/actor_container.hpp and actor_container.ipp. What the container reads of an actor, its id,
-- name, session key and uuid, does not change while it is held.
pub mod Lookup
pub mod Sizes
pub mod Names
pub mod Tests
use play.Common.{ℕ, Bool, true, false, ◌||◌, Option, none, some, List, [], ◌∷◌, length}
use play.Common.Tests.{if◌then◌else◌}
use play.Common.Outcome.{Outcome, ret, aborts, faults}
use play.Common.Map.{is_some, find, insert, erase, nat_key, bytes_key}
use play.App.Index.{link, look_up}

pub record Actor : Type 0 where
  pub id : ℕ
  pub name : List ℕ
  pub session_key : ℕ
  pub uuid : ℕ

-- The template's Boolean arguments: which indexes there are.
pub record Has : Type 0 where
  pub name : Bool
  pub session : Bool
  pub uuid : Bool

-- The default arguments.
abbrev pub standard : Has
standard = record { name = true; session = true; uuid = false }

pub record ActorContainer : Type 0 where
  pub actors : List (ℕ × Actor)
  pub names : List (List ℕ × ℕ)
  pub sessions : List (ℕ × ℕ)
  pub uuids : List (ℕ × ℕ)

unfoldable pub init : ActorContainer
init = record { actors = []; names = []; sessions = []; uuids = [] }

-- The new actor is linked only where its id was free. `link` keeps a name that is taken.
unfoldable pub add : Has → ActorContainer → Actor → Bool × ActorContainer
add has c actor = if is_some (find actor.id c.actors) then (false, c) else (
  true,
  record {
    actors = insert actor.id actor c.actors;
    names = if has.name then link actor.name actor.id c.names else c.names;
    sessions = if has.session then link actor.session_key actor.id c.sessions else c.sessions;
    uuids = if has.uuid then link actor.uuid actor.id c.uuids else c.uuids;
  },
)

-- The four ways to find an actor; a key without an index does not compile.
unfoldable pub find_by_id : ActorContainer → ℕ → Option Actor
find_by_id c id = find id c.actors

unfoldable pub find_by_name : ActorContainer → List ℕ → Option Actor
find_by_name c name = look_up name c.names c.actors

unfoldable pub find_by_session : ActorContainer → ℕ → Option Actor
find_by_session c session_key = look_up session_key c.sessions c.actors

unfoldable pub find_by_uuid : ActorContainer → ℕ → Option Actor
find_by_uuid c uuid = look_up uuid c.uuids c.actors

unfoldable pub size : ActorContainer → ℕ
size c = length c.actors

-- `for_each` visits the actors in the order of their ids.
abbrev pub visited : List (ℕ × Actor) → List Actor
visited [] = []
visited ((_, actor) ∷ actors) = actor ∷ visited actors

-- Whether a deletion unlinks the actor from an index.
abbrev pub is_indexed : Has → Bool
is_indexed has = has.name || has.session || has.uuid

-- The entry is erased first, and then the keys to unlink are read through its iterator, which is
-- undefined.
unfoldable pub del_found : Has → ActorContainer → Option Actor → Outcome ActorContainer
del_found has c none = ret c
del_found has c (some actor) =
    if is_indexed has then faults else ret (record c { actors = erase actor.id c.actors })

unfoldable pub del_by_id : Has → ActorContainer → ℕ → Outcome ActorContainer
unfolding del_found find_by_id
del_by_id has c id = del_found has c (find_by_id c id)

unfoldable pub del_by_name : Has → ActorContainer → List ℕ → Outcome ActorContainer
unfolding del_found find_by_name
del_by_name has c name = del_found has c (find_by_name c name)

unfoldable pub del_by_session : Has → ActorContainer → ℕ → Outcome ActorContainer
unfolding del_found find_by_session
del_by_session has c session_key = del_found has c (find_by_session c session_key)

unfoldable pub del_by_uuid : Has → ActorContainer → ℕ → Outcome ActorContainer
unfolding del_found find_by_uuid
del_by_uuid has c uuid = del_found has c (find_by_uuid c uuid)

-- The destructor of an actor calls `stop`, and that calls `on_stop`: a pure virtual call there.
abbrev pub destroy_actor : Outcome (Unit {0})
destroy_actor = aborts
