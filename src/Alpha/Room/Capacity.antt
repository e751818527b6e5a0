-- ===== src/Alpha/Room/Capacity.antt =====
-- A room never holds more users and reservations than its capacity.
use play.Common.{
  ℕ, ◌+◌, ◌≤◌, ◌≡◌, ap, subst, ◌≢◌, inl, inr, Option, none, some, List, [], ◌∷◌, arith,
}
use play.Common.Tests.{ltb, ◌==◌, ltb→lt, Bool-cases}
use play.Common.Outcome.{Outcome, ret, aborts, faults, >>=-eq-ret, ret-injective}
use play.Common.Map.{nat_key, bytes_key}
use play.App.ActorContainer.{Actor, init, find_by_name, size, del_by_id, del_by_name}
use play.App.ActorContainer.Lookup.{HoldsIds}
use play.App.ActorContainer.Sizes.{size-add, add-HoldsIds, del_by_id-size}
use play.Alpha.Messages.{fail_room_user_not_found, res_checkin, Sent, to_session}
use play.Alpha.Room.{
  user_container, user_pending_container, RoomActor, room_user, do_reserve, checkin_found,
  do_checkin, del_user,
}

-- A room as its constructor leaves it.
unfoldable pub new_room : List ℕ → ℕ → List ℕ → RoomActor
new_room name capacity uuid = record {
  name = name;
  capacity = capacity;
  uuid = uuid;
  users = init;
  pending_users = init;
}

pub record Fits (capacity : ℕ) (r : RoomActor) : Type 0 where
  pub ids : HoldsIds r.pending_users.actors
  pub fixed : r.capacity ≡ capacity
  pub bounded : size r.users + size r.pending_users ≤ r.capacity

-- What happens to a room: a reservation, a check-in, or the posted deletion of a user.
pub data Step : RoomActor → RoomActor → Type 0 where
  reserves : (id : ℕ) (name : List ℕ) (r : RoomActor) → Step r (do_reserve id name r).0
  checks_in :
      (id se : ℕ) (name : List ℕ) (r r' : RoomActor) (out : List Sent)
      → do_checkin id se name r ≡ ret (r', out)
      → Step r r'
  deletes : (id : ℕ) (r r' : RoomActor) → del_user id r ≡ ret r' → Step r r'

pub data Steps : RoomActor → RoomActor → Type 0 where
  stays : (r : RoomActor) → Steps r r
  then_step : (r s t : RoomActor) → Steps r s → Step s t → Steps r t

do_reserve-Fits :
    (capacity id : ℕ) (name : List ℕ) (r : RoomActor)
    → Fits capacity r
    → Fits capacity (do_reserve id name r).0
unfolding do_reserve
do_reserve-Fits capacity id name r h =
    let user = room_user id name 0 in
    let free = size r.users + size r.pending_users in
    elim (Bool-cases (ltb free r.capacity)) [
      | inl room_left ↦
          let below = ltb→lt free r.capacity room_left in
          rw (room_left) record {
            ids = add-HoldsIds user_pending_container r.pending_users user h.ids;
            fixed = h.fixed;
            bounded = omega (arith, size-add user_pending_container r.pending_users user, below);
          }
      | inr full ↦ rw (full) h
    ]

-- A check-in on a reservation does not return.
pub checkin_found_never :
    (id se : ℕ) (name : List ℕ) (r : RoomActor) (a : Actor) (done : RoomActor × List Sent)
    → checkin_found id se name r (some a) ≢ ret done
unfolding checkin_found
checkin_found_never id se name r a done e =
    let (pending, _, e1) =
      >>=-eq-ret (del_by_name user_pending_container r.pending_users name) _ e in
    elim (Bool-cases (se == 0)) [
      | inl null ↦ let bad : faults ≡ ret done = rw (null) at e1 in cc
      | inr live ↦ let bad : aborts ≡ ret done = rw (live) at e1 in cc
    ]

checkin_found-Fits :
    (capacity id se : ℕ) (name : List ℕ) (r r' : RoomActor) (out : List Sent) (o : Option Actor)
    → Fits capacity r
    → checkin_found id se name r o ≡ ret (r', out)
    → Fits capacity r'
unfolding checkin_found
checkin_found-Fits capacity id se name r r' out none h e = elim (Bool-cases (se == 0)) [
  | inl null ↦
      let bad : ◌≡◌ {A = Outcome (RoomActor × List Sent)} faults (ret (r', out)) = rw (null) at e in
      cc
  | inr live ↦
      let same : ret (r, to_session se (res_checkin fail_room_user_not_found []) ∷ [])
          ≡ ret (r', out) =
        rw (live) at e in
      subst (Fits capacity) (ap (λ p. p.0) (ret-injective same)) h
]
checkin_found-Fits capacity id se name r r' out (some a) h e =
    absurd (checkin_found_never id se name r a (r', out) e)

del_user-Fits :
    (capacity id : ℕ) (r r' : RoomActor)
    → Fits capacity r
    → del_user id r ≡ ret r'
    → Fits capacity r'
unfolding del_user
del_user-Fits capacity id r r' h e =
    let (users, deleted, e1) = >>=-eq-ret (del_by_id user_container r.users id) _ e in
    let fewer = del_by_id-size user_container r.users users id deleted in
    subst (Fits capacity) (ret-injective e1)
      (record { ids = h.ids; fixed = h.fixed; bounded = omega (arith, fewer, h.bounded) })

pub Step-Fits : (capacity : ℕ) (r s : RoomActor) → Fits capacity r → Step r s → Fits capacity s
unfolding do_checkin
Step-Fits capacity _ _ h (reserves id name r) = do_reserve-Fits capacity id name r h
Step-Fits capacity _ _ h (checks_in id se name r r' out e) =
    checkin_found-Fits capacity id se name r r' out (find_by_name r.pending_users name) h e
Step-Fits capacity _ _ h (deletes id r r' e) = del_user-Fits capacity id r r' h e
