-- ===== src/Net/Pulse/Tree/Dangling.antt =====
-- `unbind_child` clears interests only where the parent is the root, so a grandchild that is
-- destroyed stays in the interests of the root.
use play.Common.{
  ℕ, ◌≡◌, refl, sym, ap, ◌∙◌, ◌⊎◌, inl, inr, Bool, true, false, not, none, some, List, [], ◌∷◌,
}
use play.Common.Tests.{◌==◌, if◌then◌else◌, ==_iff, ==_refl, Bool-cases, some-injective}
use play.Common.Lists.{is_empty, All}
use play.Common.Outcome.{Outcome, ret, throws, faults, Build, play_check-true}
use play.Common.Map.{
  find, assign, erase, find-assign, find-erase_here, find-erase_apart, nat_key, pair_key,
}
use play.Net.Pulse.Tree.{
  Mode, unset, server, client, child, independent, Node, Heap, node, node-found, unbind_child, stop,
  destroy, Post, own_posts, interested, for_each, dispatch_with, dispatch, publish,
}
use play.Net.Pulse.Tree.Upkeep.{IsChild-assign}
use play.Net.Pulse.Tree.Delivery.{IsChild, IsEntry, IsTree, dispatch-child, interested-live}

-- Each call returns or is undefined.
abbrev EndsIn : (ℕ → Outcome (List Post)) → ℕ × ℕ → Type 0
EndsIn f kv = ((ps : List Post) × (f kv.1 ≡ ret ps)) ⊎ (f kv.1 ≡ faults)

for_each-faults :
    (f : ℕ → Outcome (List Post)) (c : ℕ) (cmap : List (ℕ × ℕ))
    → All (EndsIn f) cmap
    → find c cmap ≡ some c
    → f c ≡ faults
    → for_each f cmap ≡ faults
unfolding for_each find
for_each-faults f c [] l there bad = cc
for_each-faults f c ((k, d) ∷ cmap) (inr e, l) there bad = rw (e) refl
for_each-faults f c ((k, d) ∷ cmap) (inl (ps, e), l) there bad = elim (Bool-cases (k == c)) [
  | inl b ↦
      let here : d ≡ c = some-injective (rw (b) at there) in
      let clash = sym e ∙ ap f here ∙ bad in cc
  | inr b ↦ rw (e, for_each-faults f c cmap l (rw (b) at there) bad) refl
]

dispatch-gone : (h : Heap) (c se pic : ℕ) → find c h ≡ none → dispatch 1 h c se pic true ≡ faults
unfolding dispatch dispatch_with node
dispatch-gone h c se pic e = rw (dispatch_with, node, e) refl

module _ (h : Heap) (root : ℕ) (r : Node) (c : ℕ) (n : Node) (q : ℕ) (up : Node)
    (t : IsTree h root r) (at_c : find c h ≡ some n) (at_up : find q h ≡ some up)
    (not_c : (c == q) ≡ false) (top_c : (n.parent == 0) ≡ false)
    (top_up : (up.parent == 0) ≡ false) where
  abbrev without_child : Heap
  without_child = erase c (
      assign q (record up { childs = erase c up.childs })
        (assign c (record n { stopped = true }) h))

  below_root :
      (p : ℕ) (k : Node) → find p h ≡ some k → (k.parent == 0) ≡ false → (p == root) ≡ false
  below_root p k at_p child' = elim (Bool-cases (p == root)) [
    | inl b ↦
        let same : k ≡ r =
          some-injective (sym at_p ∙ ap (λ x. find x h) ((==_iff p root).0 b) ∙ t.top) in
        let clash = sym t.first ∙ ap (λ x. x.parent == 0) (sym same) ∙ child' in cc
    | inr b ↦ b
  ]

  root_left : find root without_child ≡ some r
  root_left =
      find-erase_apart root c _ (below_root c n at_c top_c)
      ∙ find-assign root q _ _
      ∙ rw
          (
            below_root q up at_up top_up,
            find-assign root c (record n { stopped = true }) h,
            below_root c n at_c top_c,
          )
          t.top

  marked : Heap
  marked = assign c (record n { stopped = true }) h

  up_left : find q marked ≡ some up
  unfolding marked
  up_left = find-assign q c (record n { stopped = true }) h ∙ rw (not_c) at_up

  IsChild-left : (d : ℕ) → (c == d) ≡ false → IsChild h d → IsChild without_child d
  unfolding marked
  IsChild-left d off kid =
      let (x, at_d, below) =
        IsChild-assign marked q up (record up { childs = erase c up.childs }) d up_left refl
          (IsChild-assign h c n (record n { stopped = true }) d at_c refl kid) in
      (x, find-erase_apart d c _ off ∙ at_d, below)

  gone : find c without_child ≡ none
  gone = find-erase_here c _

  entry_left :
      (se pic : ℕ) (kv : ℕ × ℕ)
      → IsEntry h kv
      → EndsIn (λ d. dispatch 1 without_child d se pic true) kv
  entry_left se pic (k, d) (same, kid) = elim (Bool-cases (c == d)) [
    | inl b ↦
        let at_d : find d without_child ≡ none =
          ap (λ t. find t without_child) (sym ((==_iff c d).0 b)) ∙ gone in
        inr (dispatch-gone without_child d se pic at_d)
    | inr b ↦
        let (x, at_d, below) = IsChild-left d b kid in
        inl (own_posts x se pic true, dispatch-child 0 without_child d se pic x at_d below)
  ]

  entries_left :
      (se pic : ℕ) (cmap : List (ℕ × ℕ))
      → All (IsEntry h) cmap
      → All (EndsIn (λ d. dispatch 1 without_child d se pic true)) cmap
  entries_left se pic [] l = tt
  entries_left se pic (kv ∷ cmap) (e, l) = (entry_left se pic kv e, entries_left se pic cmap l)

  publish-without :
      (se pic : ℕ)
      → find c (interested r 0 pic) ≡ some c
      → publish without_child root se pic ≡ faults
  unfolding dispatch dispatch_with
  publish-without se pic there =
      rw
        (
          dispatch_with,
          node-found without_child root root_left,
          t.first,
          for_each-faults (λ d. dispatch 1 without_child d 0 pic true) c (interested r 0 pic)
              (entries_left 0 pic (interested r 0 pic) (interested-live h root r 0 pic t)) there
              (dispatch-gone without_child c 0 pic gone),
        )
        refl

-- Under a parent that is not the root, the child leaves the children of its parent alone.
unbind-nested :
    (m : Build) (h : Heap) (p c : ℕ) (n gone : Node)
    → find p h ≡ some n
    → find c h ≡ some gone
    → n.final ≡ false
    → (c == 0) ≡ false
    → (n.parent == 0) ≡ false
    → unbind_child m h p c ≡ ret (assign p (record n { childs = erase c n.childs }) h)
unfolding unbind_child
unbind-nested m h p c n gone at_p at_c opened nonzero below =
    rw (node-found h p at_p, node-found h c at_c, opened, nonzero, below, play_check-true m) refl

-- The branches of `stop` over a state `h'` in which the pulse is marked.
child_branch :
    (m : Build) (h h' : Heap) (p up : ℕ) (stopped bare : Bool) (mode : Mode)
    → stopped ≡ false
    → bare ≡ true
    → mode ≡ child
    → (if stopped then ret h else if not bare then throws else elim mode [
      | unset ↦ ret h'
      | server ↦ ret h'
      | client ↦ ret h'
      | child ↦ unbind_child m h' up p
      | independent ↦ ret h'
    ])
      ≡ unbind_child m h' up p
child_branch m h h' p up stopped bare mode a b c = rw (a, b, c) refl

stop-child :
    (m : Build) (h : Heap) (p : ℕ) (n : Node)
    → find p h ≡ some n
    → n.mode ≡ child
    → n.childs ≡ []
    → n.stopped ≡ false
    → stop m h p ≡ unbind_child m (assign p (record n { stopped = true }) h) n.parent p
unfolding stop
stop-child m h p n at_p mode empty running = rw (node-found h p at_p) (
    child_branch m h (assign p (record n { stopped = true }) h) p n.parent n.stopped
      (is_empty n.childs) n.mode running (ap is_empty empty) mode)

-- A grandchild of the root, subscribed to a topic for no session, is destroyed: its destructor
-- returns, and the next frame of that topic makes the root call `dispatch` of the pulse that does
-- not live any more.
pub destroy-publish :
    (m : Build) (h : Heap) (root : ℕ) (r : Node) (c : ℕ) (n up : Node) (se pic : ℕ)
    → IsTree h root r
    → find c h ≡ some n
    → find n.parent h ≡ some up
    → (c == n.parent) ≡ false
    → (c == 0) ≡ false
    → (n.parent == 0) ≡ false
    → (up.parent == 0) ≡ false
    → up.final ≡ false
    → n.mode ≡ child
    → n.childs ≡ []
    → n.stopped ≡ false
    → find c (interested r 0 pic) ≡ some c
    → (h' : Heap) × (destroy m h c ≡ ret h') × (publish h' root se pic ≡ faults)
unfolding destroy marked
destroy-publish m h root r c n up se pic t at_c at_up not_c nonzero top_c top_up open_up mode empty
      running there =
    (
      without_child h root r c n n.parent up t at_c at_up not_c top_c top_up,
      rw (destroy, stopped) refl,
      publish-without h root r c n n.parent up t at_c at_up not_c top_c top_up se pic there,
    )
  where
    still : find c (assign c (record n { stopped = true }) h) ≡ some (record n { stopped = true })
    still = find-assign c c (record n { stopped = true }) h ∙ rw (==_refl c) refl

    up_still : find n.parent (assign c (record n { stopped = true }) h) ≡ some up
    up_still = up_left h root r c n n.parent up t at_c at_up not_c top_c top_up

    stopped :
        stop m h c
        ≡ ret (
            assign n.parent
              (record up { childs = erase c up.childs })
              (assign c (record n { stopped = true }) h))
    stopped =
        stop-child m h c n at_c mode empty running
        ∙ unbind-nested m (assign c (record n { stopped = true }) h) n.parent c up
            (record n { stopped = true }) up_still still open_up nonzero top_up
