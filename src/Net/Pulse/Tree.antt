-- ===== src/Net/Pulse/Tree.antt =====
-- The tree of pulses of pulse.ipp: children, the interests that the root keeps, and `dispatch`. A
-- pulse is named by its address, 0 for the null pointer, and the heap holds the pulses that live.
-- What the code posts to the runner is returned in its order.
pub mod Delivery
pub mod Upkeep
pub mod Dangling
pub mod Tests
use play.Common.{
  ℕ, zero, suc, ◌≡◌, refl, Bool, true, false, not, ◌||◌, Option, none, some, List, [], ◌∷◌, ◌++◌,
}
use play.Common.Tests.{◌==◌, if◌then◌else◌}
use play.Common.Lists.{length, is_empty}
use play.Common.Outcome.{Outcome, ret, aborts, throws, faults, ◌>>=◌, ◌>>◌, Build, play_check}
use play.Common.Map.{or_some, find, insert, assign, erase, nat_key, pair_key}
use play.Net.Pulse.Calls.{Receiver, Subscription, Pulse, subscribe}

pub data Mode : Type 0 where
  unset server client child independent : Mode

pub record Node : Type 0 where
  pub pulse : Pulse
  pub mode : Mode
  pub parent : ℕ
  pub final : Bool
  pub stopped : Bool
  pub strand_key : ℕ
  pub childs : List (ℕ × ℕ)
  pub interests : List ((ℕ × ℕ) × List (ℕ × ℕ))
  pub self_interests : List ((ℕ × ℕ) × Bool)

abbrev pub Heap : Type 0
Heap = List (ℕ × Node)

-- A read or a call through a pointer: undefined where no pulse lives.
unfoldable pub node : Heap → ℕ → Outcome Node
node h p = elim (find p h) [ none ↦ faults | some n ↦ ret n ]

pub node-found : (h : Heap) (p : ℕ) {n : Node} → find p h ≡ some n → node h p ≡ ret n
unfolding node
node-found h p e = rw (node, e) refl

abbrev pub is_root : Node → Bool
is_root n = n.parent == 0

abbrev pub parent_of : Heap → ℕ → Option ℕ
parent_of h p = elim (find p h) [ none ↦ none | some n ↦ some n.parent ]

-- The recursion ends at a pulse without a parent; one that does not end is undefined.
unfoldable pub get_root : ℕ → Heap → ℕ → Outcome ℕ
get_root zero h p = faults
get_root (suc fuel) h p = elim (parent_of h p) [
  | none ↦ faults
  | some up ↦ if up == 0 then ret p else get_root fuel h up
]

unfoldable pub bind_child : Build → Heap → ℕ → ℕ → Outcome Heap
bind_child m h p c = do
  n ← node h p
  play_check m (not n.final)
  play_check m (not (c == 0))
  if n.final then throws else ret (assign p (record n { childs = insert c c n.childs }) h)

unfoldable pub as_child : Build → Heap → ℕ → ℕ → Outcome Heap
unfolding bind_child
as_child m h c p = do
  play_check m (not (p == 0))
  n ← node h c
  bind_child m (assign c (record n { mode = child; parent = p }) h) p c

unfoldable pub show_interest : Build → Heap → ℕ → ℕ → ℕ × ℕ → Outcome Heap
show_interest m h root c key = do
  n ← node h root
  play_check m (is_root n)
  let cmap = insert c c (or_some (find key n.interests) [])
  ret (assign root (record n { interests = assign key cmap n.interests }) h)

abbrev pub is_unset : Mode → Bool
is_unset unset = true
is_unset _ = false

-- `subscribe`: the pulse's own map, and for a child its interest, kept by itself and by the root.
unfoldable pub subscribe_at : Build → Heap → ℕ → ℕ → Receiver → Outcome Heap
unfolding subscribe get_root show_interest
subscribe_at m h p pic cb = do
  n ← node h p
  play_check m (not (is_unset n.mode))
  let n' = record n { pulse = subscribe n.pulse pic cb }
  let skey = n.pulse.session
  let kept = record n' { self_interests = assign (skey, pic) true n'.self_interests }
  if is_root n then ret (assign p n' h) else do
    let h' = assign p kept h
    root ← get_root (suc (length h')) h' p
    show_interest m h' root p (skey, pic)

-- The loop of `unbind_child` over the interests that the child kept.
unfoldable pub lose_interests :
    ℕ → List ((ℕ × ℕ) × Bool) → List ((ℕ × ℕ) × List (ℕ × ℕ)) → List ((ℕ × ℕ) × List (ℕ × ℕ))
lose_interests c [] interests = interests
lose_interests c ((key, b) ∷ kept) interests = lose_interests c kept (elim (find key interests) [
  | none ↦ interests
  | some cmap ↦ assign key (erase c cmap) interests
])

unfoldable pub unbind_child : Build → Heap → ℕ → ℕ → Outcome Heap
unfolding lose_interests
unbind_child m h p c = do
  n ← node h p
  play_check m (not n.final)
  play_check m (not (c == 0))
  gone ← node h c
  let lost = if is_root n then lose_interests c gone.self_interests n.interests else n.interests
  ret (assign p (record n { childs = erase c n.childs; interests = lost }) h)

-- `stop`; the server or the client of a root is outside.
unfoldable pub stop : Build → Heap → ℕ → Outcome Heap
unfolding unbind_child
stop m h p = do
  n ← node h p
  let h' = assign p (record n { stopped = true }) h
  if n.stopped then ret h else if not (is_empty n.childs) then throws else elim n.mode [
    | unset ↦ ret h'
    | server ↦ ret h'
    | client ↦ ret h'
    | child ↦ unbind_child m h' n.parent p
    | independent ↦ ret h'
  ]

-- The destructor: `stop`, and the pulse does not live any more. An exception that leaves a
-- destructor ends the program.
unfoldable pub destroy : Build → Heap → ℕ → Outcome Heap
unfolding stop
destroy m h p = elim (stop m h p) [
  | ret h' ↦ ret (erase p h')
  | aborts ↦ aborts
  | throws ↦ aborts
  | faults ↦ faults
]

-- What is posted: a receiver with the session that it gets, on the strand of its pulse.
pub record Post : Type 0 where
  pub strand_key : ℕ
  pub cb : Receiver
  pub session : ℕ

abbrev pub is_target : ℕ → ℕ → Bool → Bool
is_target sub_key key from_root =
    if from_root then sub_key == key else (sub_key == 0) || (sub_key == key)

unfoldable pub posts_of : ℕ → List Subscription → ℕ → Bool → List Post
posts_of strand [] se from_root = []
posts_of strand (s ∷ subs) se from_root =
    let rest = posts_of strand subs se from_root in
    if is_target s.session_key se from_root
    then record { strand_key = strand; cb = s.cb; session = se } ∷ rest
    else rest

abbrev pub subscriptions_of : Node → ℕ → List Subscription
subscriptions_of n pic = or_some (find pic n.pulse.subscriptions) []

-- The first half of `dispatch`.
abbrev pub own_posts : Node → ℕ → ℕ → Bool → List Post
own_posts n se pic from_root = posts_of n.strand_key (subscriptions_of n pic) se from_root

abbrev pub interested : Node → ℕ → ℕ → List (ℕ × ℕ)
interested n se pic = or_some (find (se, pic) n.interests) []

unfoldable pub for_each : (ℕ → Outcome (List Post)) → List (ℕ × ℕ) → Outcome (List Post)
for_each f [] = ret []
for_each f ((k, c) ∷ cmap) = do posts ← f c; rest ← for_each f cmap; ret (posts ++ rest)

-- `dispatch`, over its calls for a child and a session. The children that are interested in the
-- topic alone are given the null session.
unfoldable pub dispatch_with :
    (ℕ → ℕ → Outcome (List Post)) → Heap → ℕ → ℕ → ℕ → Bool → Outcome (List Post)
unfolding for_each posts_of
dispatch_with pass h p se pic from_root = do
  n ← node h p
  let own = own_posts n se pic from_root
  if not (is_root n) then ret own else do
    any ← for_each (λ c. pass c 0) (interested n 0 pic)
    same ← for_each (λ c. pass c se) (if se == 0 then [] else interested n se pic)
    ret (own ++ (any ++ same))

unfoldable pub dispatch : ℕ → Heap → ℕ → ℕ → ℕ → Bool → Outcome (List Post)
unfolding dispatch_with
dispatch zero h p se pic from_root = faults
dispatch (suc fuel) h p se pic from_root =
    dispatch_with (λ c key. dispatch fuel h c key pic true) h p se pic from_root

-- `publish`, and `on_receive` with a frame: the root passes it to its children, which pass it on
-- to nobody.
abbrev pub publish : Heap → ℕ → ℕ → ℕ → Outcome (List Post)
publish h root se pic = dispatch 2 h root se pic false
