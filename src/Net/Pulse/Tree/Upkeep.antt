-- ===== src/Net/Pulse/Tree/Upkeep.antt =====
-- The root's interests follow what its children subscribe to.
use play.Common.Outcome.{ret, Build, play_check-true}
use play.Net.Pulse.Calls.{Receiver, Subscription, subscribe}
use play.Common.Map.Entries.{All-insert, All-find, length-assign}
use play.Common.{
  ℕ, zero, suc, ◌≡◌, refl, sym, ap, subst, ◌∙◌, inl, inr, true, false, some, List, [], ◌∷◌, ◌++◌,
  length, All, All-append,
}
use play.Common.Tests.{
  ◌==◌, if◌then◌else◌, ==_iff, ==_refl, Bool-cases, Option-cases, some-injective,
}
use play.Common.Map.{
  or_some, find, insert, assign, find-assign, find-insert_here, find-insert_keeps, nat_key, pair_eq,
  pair_eq_iff, pair_key,
}
use play.Net.Pulse.Tree.{
  Node, Heap, node-found, parent_of, get_root, show_interest, is_unset, subscribe_at,
  subscriptions_of, interested,
}
use play.Net.Pulse.Tree.Delivery.{IsChild, IsEntry, IsTree, interested-live}

-- Only the parents count for `get_root`.
get_root_same :
    (fuel : ℕ) (h h' : Heap) (p : ℕ)
    → ((q : ℕ) → parent_of h q ≡ parent_of h' q)
    → get_root fuel h p ≡ get_root fuel h' p
unfolding get_root
get_root_same zero h h' p same = refl
get_root_same (suc fuel) h h' p same = elim (Option-cases (parent_of h' p)) [
  | inl e ↦ rw (get_root, same p, e) refl
  | inr (up, e) ↦ rw (get_root, same p, e, get_root_same fuel h h' up same) refl
]

parent_of-assign :
    (h : Heap) (p : ℕ) (n n' : Node) (q : ℕ)
    → find p h ≡ some n
    → n'.parent ≡ n.parent
    → parent_of h q ≡ parent_of (assign p n' h) q
parent_of-assign h p n n' q e up = elim (Bool-cases (p == q)) [
  | inl b ↦
      let same : p ≡ q = (==_iff p q).0 b in
      let there : find q h ≡ some n = ap (λ t. find t h) (sym same) ∙ e in
      rw (parent_of, find-assign q p n' h, b, there) (ap some (sym up))
  | inr b ↦ rw (parent_of, find-assign q p n' h, b) refl
]

-- A pulse that changes and keeps its parent.
pub IsChild-assign :
    (h : Heap) (p : ℕ) (n n' : Node) (c : ℕ)
    → find p h ≡ some n
    → n'.parent ≡ n.parent
    → IsChild h c
    → IsChild (assign p n' h) c
IsChild-assign h p n n' c e up (k, at_c, other) = elim (Bool-cases (p == c)) [
  | inl b ↦
      let same : p ≡ c = (==_iff p c).0 b in
      let is_n : n ≡ k = some-injective (sym e ∙ ap (λ t. find t h) same ∙ at_c) in
      (
        n',
        find-assign c p n' h ∙ rw (b) refl,
        ap (λ t. t == 0) (up ∙ ap (λ t. t.parent) is_n) ∙ other,
      )
  | inr b ↦ (k, find-assign c p n' h ∙ rw (b) at_c, other)
]

-- The root with a child under a key.
abbrev with_interest : Node → ℕ → ℕ × ℕ → Node
with_interest r c key = record r {
  interests = assign key (insert c c (or_some (find key r.interests) [])) r.interests;
}

interested-with :
    (r : Node) (c k pic : ℕ) (key : ℕ × ℕ)
    → interested (with_interest r c key) k pic
      ≡ (if pair_eq key (k, pic) then insert c c (interested r k pic) else interested r k pic)
interested-with r c k pic key = elim (Bool-cases (pair_eq key (k, pic))) [
  | inl b ↦
      let same : key ≡ (k, pic) = (pair_eq_iff key (k, pic)).0 b in
      rw (find-assign (k, pic) key (insert c c (or_some (find key r.interests) [])) r.interests, b)
        (ap (λ t. insert c c (or_some (find t r.interests) [])) same)
  | inr b ↦
      rw (find-assign (k, pic) key (insert c c (or_some (find key r.interests) [])) r.interests, b)
        refl
]

-- What was found in the interests is still found with one more child.
interested-keeps :
    (r : Node) (c other k pic v : ℕ) (key : ℕ × ℕ)
    → find other (interested r k pic) ≡ some v
    → find other (interested (with_interest r c key) k pic) ≡ some v
interested-keeps r c other k pic v key e = ap (find other) (interested-with r c k pic key) ∙ grown
  where
    grown :
        find other
          (if pair_eq key (k, pic) then insert c c (interested r k pic) else interested r k pic)
        ≡ some v
    grown = elim (Bool-cases (pair_eq key (k, pic))) [
      | inl b ↦ rw (b) (find-insert_keeps other c c v (interested r k pic) e)
      | inr b ↦ rw (b) e
    ]

-- An entry that is inserted under its own key is found.
find-entry :
    (c : ℕ) (cmap : List (ℕ × ℕ)) (h : Heap)
    → All (IsEntry h) cmap
    → find c (insert c c cmap) ≡ some c
find-entry c cmap h l = elim (Option-cases (find c cmap)) [
  | inl e ↦ find-insert_here c c cmap e
  | inr (v, e) ↦
      let same : c ≡ v = (All-find (IsEntry h) c v cmap e l).0 in
      find-insert_keeps c c c c cmap (e ∙ ap some (sym same))
]

-- The subscriptions after one more.
subscriptions_of-subscribe :
    (n n' : Node) (pic other : ℕ) (cb : Receiver)
    → n'.pulse ≡ subscribe n.pulse pic cb
    → subscriptions_of n' other ≡ (
        if pic == other
        then subscriptions_of n pic ++ (record { session_key = n.pulse.session; cb = cb } ∷ [])
        else subscriptions_of n other)
unfolding subscribe
subscriptions_of-subscribe n n' pic other cb e =
    ap (λ p. or_some (find other p.subscriptions) []) e ∙ (elim (Bool-cases (pic == other)) [
      | inl b ↦
          rw
            (
              find-assign other pic
                  (subscriptions_of n pic
                    ++ (record { session_key = n.pulse.session; cb = cb } ∷ []))
                  n.pulse.subscriptions,
              b,
            )
            refl
      | inr b ↦
          rw
            (
              find-assign other pic
                  (subscriptions_of n pic
                    ++ (record { session_key = n.pulse.session; cb = cb } ∷ []))
                  n.pulse.subscriptions,
              b,
            )
            refl
    ])

module _ (h : Heap) (root : ℕ) (r : Node) (p : ℕ) (n n' : Node) (pic : ℕ) (cb : Receiver)
    (t : IsTree h root r) (e : find p h ≡ some n) (other : (n.parent == 0) ≡ false)
    (grown : n'.pulse ≡ subscribe n.pulse pic cb) (up : n'.parent ≡ n.parent) where
  abbrev grown_root : Node
  grown_root = with_interest r p (n.pulse.session, pic)

  abbrev grown_heap : Heap
  grown_heap = assign root grown_root (assign p n' h)

  apart : (p == root) ≡ false
  apart = elim (Bool-cases (p == root)) [
    | inl b ↦
        let is_r : n ≡ r =
          some-injective (sym e ∙ ap (λ q. find q h) ((==_iff p root).0 b) ∙ t.top) in
        let clash = sym t.first ∙ ap (λ k. k.parent == 0) (sym is_r) ∙ other in cc
    | inr b ↦ b
  ]

  root_kept : find root (assign p n' h) ≡ some r
  root_kept = find-assign root p n' h ∙ rw (apart) t.top

  IsChild-kept : (c : ℕ) → IsChild h c → IsChild grown_heap c
  IsChild-kept c k =
      IsChild-assign (assign p n' h) root r grown_root c root_kept refl
        (IsChild-assign h p n n' c e up k)

  entries_kept : (cmap : List (ℕ × ℕ)) → All (IsEntry h) cmap → All (IsEntry grown_heap) cmap
  entries_kept [] l = tt
  entries_kept ((k, c) ∷ cmap) ((same, kid), l) = ((same, IsChild-kept c kid), entries_kept cmap l)

  grown-live :
      (key : ℕ × ℕ) (cmap : List (ℕ × ℕ))
      → find key grown_root.interests ≡ some cmap
      → All (IsEntry grown_heap) cmap
  grown-live key cmap at_key =
      let k : ℕ × ℕ = (n.pulse.session, pic) in
      let old = or_some (find k r.interests) [] in
      let at_old = sym (find-assign key k (insert p p old) r.interests) ∙ at_key in
      elim (Bool-cases (pair_eq k key)) [
        | inl b ↦
            let is_new : insert p p old ≡ cmap = some-injective (rw (b) at at_old) in
            subst (All (IsEntry grown_heap)) is_new (
              All-insert (IsEntry grown_heap) p p old (refl, IsChild-kept p (n, e, other))
                (entries_kept old (interested-live h root r n.pulse.session pic t)))
        | inr b ↦ entries_kept cmap (t.live key cmap (rw (b) at at_old))
      ]

  FoundIn : (c : ℕ) → ℕ → Subscription → Type 0
  FoundIn c pic' s = find c (interested grown_root s.session_key pic') ≡ some c

  found-kept :
      (c pic' : ℕ) (subs : List Subscription)
      → All (λ s. find c (interested r s.session_key pic') ≡ some c) subs
      → All (FoundIn c pic') subs
  unfolding FoundIn
  found-kept c pic' [] l = tt
  found-kept c pic' (s ∷ subs) (at_s, l) = (
    interested-keeps r p c s.session_key pic' c (n.pulse.session, pic) at_s,
    found-kept c pic' subs l,
  )

  new-found : FoundIn p pic (record { session_key = n.pulse.session; cb = cb })
  unfolding FoundIn
  new-found =
      ap (find p) (interested-with r p n.pulse.session pic (n.pulse.session, pic))
      ∙ rw ((pair_eq_iff (n.pulse.session, pic) (n.pulse.session, pic)).1 refl) (
          find-entry p (interested r n.pulse.session pic) h
            (interested-live h root r n.pulse.session pic t))

  heard_here : (pic' : ℕ) → All (FoundIn p pic') (subscriptions_of n' pic')
  heard_here pic' =
      subst (All (FoundIn p pic')) (sym (subscriptions_of-subscribe n n' pic pic' cb grown))
        (elim (Bool-cases (pic == pic')) [
          | inl b ↦
              let same : pic ≡ pic' = (==_iff pic pic').0 b in
              let old = found-kept p pic' (subscriptions_of n pic') (t.heard p n pic' e other) in
              rw (b) (
                All-append (FoundIn p pic') (subscriptions_of n pic) _
                  (subst (λ q. All (FoundIn p pic') (subscriptions_of n q)) (sym same) old)
                  (
                    subst (λ q. FoundIn p q (record { session_key = n.pulse.session; cb = cb }))
                        same new-found,
                    tt,
                  ))
          | inr b ↦ rw (b) (found-kept p pic' (subscriptions_of n pic') (t.heard p n pic' e other))
        ])

  grown-heard :
      (c : ℕ) (k : Node) (pic' : ℕ)
      → find c grown_heap ≡ some k
      → (k.parent == 0) ≡ false
      → All (FoundIn c pic') (subscriptions_of k pic')
  grown-heard c k pic' at_c below =
      let at_root = sym (find-assign c root grown_root (assign p n' h)) ∙ at_c in
      elim (Bool-cases (root == c)) [
        | inl b ↦
            let is_root : grown_root ≡ k = some-injective (rw (b) at at_root) in
            let clash = sym t.first ∙ ap (λ q. q.parent == 0) is_root ∙ below in cc
        | inr b ↦
            let at_p = sym (find-assign c p n' h) ∙ (rw (b) at at_root) in
            elim (Bool-cases (p == c)) [
              | inl d ↦
                  let is_new : n' ≡ k = some-injective (rw (d) at at_p) in
                  let same : p ≡ c = (==_iff p c).0 d in
                  subst (λ q. All (FoundIn c pic') (subscriptions_of q pic')) is_new
                    (subst (λ q. All (FoundIn q pic') (subscriptions_of n' pic')) same
                      (heard_here pic'))
              | inr d ↦
                  found-kept c pic' (subscriptions_of k pic')
                    (t.heard c k pic' (rw (d) at at_p) below)
            ]
      ]

  grown-IsTree : IsTree grown_heap root grown_root
  unfolding FoundIn
  grown-IsTree = record {
    top = find-assign root root grown_root (assign p n' h) ∙ rw (==_refl root) refl;
    first = t.first;
    live = grown-live;
    heard = grown-heard;
  }

-- `subscribe` of a child returns, if the child was told its parent and `get_root` finds the root,
-- and the tree is still one: the root's interests know the new subscription.
pub subscribe_at-IsTree :
    (m : Build) (h : Heap) (root : ℕ) (r : Node) (p : ℕ) (n : Node) (pic : ℕ) (cb : Receiver)
    → IsTree h root r
    → find p h ≡ some n
    → (n.parent == 0) ≡ false
    → is_unset n.mode ≡ false
    → get_root (suc (length h)) h p ≡ ret root
    → (h' : Heap) × (r' : Node) × (subscribe_at m h p pic cb ≡ ret h')
      × IsTree h' root r'
      × ((n' : Node) × (find p h' ≡ some n')
          × (subscriptions_of n' pic
              ≡ subscriptions_of n pic ++ (record { session_key = n.pulse.session; cb = cb } ∷ [])))
unfolding subscribe_at show_interest
subscribe_at-IsTree m h root r p n pic cb t e other told rooted = (
  grown_heap h root r p n kept pic cb t e other refl refl,
  grown_root h root r p n kept pic cb t e other refl refl,
  rw
      (
        node-found h p e,
        told,
        play_check-true m,
        other,
        rooted',
        node-found (assign p kept h) root (root_kept h root r p n kept pic cb t e other refl refl),
        t.first,
        play_check-true m,
      )
      refl,
  grown-IsTree h root r p n kept pic cb t e other refl refl,
  (
    kept,
    find-assign p root _ (assign p kept h)
        ∙ rw (apart_root, find-assign p p kept h, ==_refl p) refl,
    subscriptions_of-subscribe n kept pic pic cb refl ∙ rw (==_refl pic) refl,
  ),
)
  where
    kept : Node
    kept = record n {
      pulse = subscribe n.pulse pic cb;
      self_interests = assign (n.pulse.session, pic) true n.self_interests;
    }

    rooted' : get_root (suc (length (assign p kept h))) (assign p kept h) p ≡ ret root
    rooted' =
        ap (λ l. get_root (suc l) (assign p kept h) p) (length-assign p kept n h e)
        ∙ sym (
            get_root_same (suc (length h)) h (assign p kept h) p
              (λ q. parent_of-assign h p n kept q e refl))
        ∙ rooted

    apart_root : (root == p) ≡ false
    apart_root = elim (Bool-cases (root == p)) [
      | inl b ↦
          let back = (==_iff p root).1 (sym ((==_iff root p).0 b)) in
          let off = apart h root r p n kept pic cb t e other refl refl in cc
      | inr b ↦ b
    ]
