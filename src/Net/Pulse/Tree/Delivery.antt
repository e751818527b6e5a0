-- ===== src/Net/Pulse/Tree/Delivery.antt =====
-- Whom a frame reaches that the root of a tree of pulses gets.
use play.Common.{
  ℕ, suc, ◌≡◌, refl, sym, subst, ◌∙◌, ◌⊎◌, inl, inr, Bool, true, false, none, some, List, [], ◌∷◌,
  ◌++◌, append_assoc, arith,
}
use play.Common.Tests.{◌==◌, if◌then◌else◌, ==_iff, Bool-cases, Option-cases}
use play.Common.Lists.{All, All-append}
use play.Common.Outcome.{ret, ◌>>=◌, ret-injective}
use play.Common.Map.{find, nat_key, pair_key}
use play.Common.Map.Entries.{find-split}
use play.Net.Pulse.Calls.{Subscription}
use play.Net.Pulse.Tree.{
  Node, Heap, node-found, Post, is_target, posts_of, subscriptions_of, own_posts, interested,
  for_each, dispatch_with, dispatch, publish,
}

-- A child: it lives and has a parent.
abbrev pub IsChild : Heap → ℕ → Type 0
IsChild h c = (n : Node) × (find c h ≡ some n) × ((n.parent == 0) ≡ false)

-- An entry of the interests: a child under its address.
abbrev pub IsEntry : Heap → ℕ × ℕ → Type 0
IsEntry h kv = (kv.0 ≡ kv.1) × IsChild h kv.1

-- The root lives, each pulse in its interests is a child, and each child is in the interests under
-- the key of each of its subscriptions.
pub record IsTree (h : Heap) (root : ℕ) (r : Node) : Type 0 where
  pub top : find root h ≡ some r
  pub first : (r.parent == 0) ≡ true
  pub live :
      (key : ℕ × ℕ) (cmap : List (ℕ × ℕ)) → find key r.interests ≡ some cmap → All (IsEntry h) cmap
  pub heard :
      (c : ℕ) (n : Node) (pic : ℕ)
      → find c h ≡ some n
      → (n.parent == 0) ≡ false
      → All (λ s. find c (interested r s.session_key pic) ≡ some c) (subscriptions_of n pic)

-- What the interested children post.
abbrev posts_in : Heap → ℕ → ℕ → List (ℕ × ℕ) → List Post
posts_in h se pic [] = []
posts_in h se pic ((k, c) ∷ cmap) =
    elim (find c h) [ none ↦ [] | some n ↦ own_posts n se pic true ] ++ posts_in h se pic cmap

pub dispatch-child :
    (fuel : ℕ) (h : Heap) (c se pic : ℕ) (n : Node)
    → find c h ≡ some n
    → (n.parent == 0) ≡ false
    → dispatch (suc fuel) h c se pic true ≡ ret (own_posts n se pic true)
unfolding dispatch dispatch_with
dispatch-child fuel h c se pic n e other = rw (dispatch_with, node-found h c e, other) refl

for_each-child :
    (h : Heap) (se pic : ℕ) (cmap : List (ℕ × ℕ))
    → All (IsEntry h) cmap
    → for_each (λ c. dispatch 1 h c se pic true) cmap ≡ ret (posts_in h se pic cmap)
unfolding for_each
for_each-child h se pic [] l = refl
for_each-child h se pic ((k, c) ∷ cmap) ((same, (n, e, other)), l) =
    rw (dispatch-child 0 h c se pic n e other, for_each-child h se pic cmap l, e) refl

pub interested-live :
    (h : Heap) (root : ℕ) (r : Node) (se pic : ℕ)
    → IsTree h root r
    → All (IsEntry h) (interested r se pic)
interested-live h root r se pic t = elim (Option-cases (find (se, pic) r.interests)) [
  | inl e ↦ rw (e) tt
  | inr (cmap, e) ↦ rw (e) (t.live (se, pic) cmap e)
]

group : Node → ℕ → ℕ → List (ℕ × ℕ)
group r se pic = if se == 0 then [] else interested r se pic

group-live :
    (h : Heap) (root : ℕ) (r : Node) (se pic : ℕ)
    → IsTree h root r
    → All (IsEntry h) (group r se pic)
unfolding group
group-live h root r se pic t = elim (Bool-cases (se == 0)) [
  | inl e ↦ rw (e) tt
  | inr e ↦ rw (e) (interested-live h root r se pic t)
]

dispatch-root :
    (fuel : ℕ) (h : Heap) (root se pic : ℕ) (r : Node)
    → find root h ≡ some r
    → (r.parent == 0) ≡ true
    → dispatch (suc fuel) h root se pic false ≡ (
        for_each (λ c. dispatch fuel h c 0 pic true) (interested r 0 pic) >>= λ any.
        for_each (λ c. dispatch fuel h c se pic true) (group r se pic) >>= λ same.
        ret (own_posts r se pic false ++ (any ++ same)))
unfolding dispatch dispatch_with group
dispatch-root fuel h root se pic r e first = rw (dispatch_with, node-found h root e, first) refl

-- `publish` returns: fuel for two levels is enough.
publish_posts :
    (h : Heap) (root : ℕ) (r : Node) (se pic : ℕ)
    → IsTree h root r
    → publish h root se pic
      ≡ ret (
          own_posts r se pic false
          ++ (posts_in h 0 pic (interested r 0 pic) ++ posts_in h se pic (group r se pic)))
publish_posts h root r se pic t =
    rw
      (
        dispatch-root 1 h root se pic r t.top t.first,
        for_each-child h 0 pic (interested r 0 pic) (interested-live h root r 0 pic t),
        for_each-child h se pic (group r se pic) (group-live h root r se pic t),
      )
      refl

-- `xs` stands in `ys`.
abbrev pub Within : List Post → List Post → Type 0
Within xs ys = (front : List Post) × (back : List Post) × (ys ≡ front ++ (xs ++ back))

Within-left : (xs ys zs : List Post) → Within xs ys → Within xs (ys ++ zs)
Within-left xs ys zs (front, back, e) =
    (front, back ++ zs, rw (e, append_assoc front, append_assoc xs) refl)

Within-right : (xs ys zs : List Post) → Within xs zs → Within xs (ys ++ zs)
Within-right xs ys zs (front, back, e) = (ys ++ front, back, rw (e, append_assoc ys front) refl)

posts_in-append :
    (h : Heap) (se pic : ℕ) (as' bs : List (ℕ × ℕ))
    → posts_in h se pic (as' ++ bs) ≡ posts_in h se pic as' ++ posts_in h se pic bs
posts_in-append h se pic [] bs = refl
posts_in-append h se pic ((k, c) ∷ as') bs = rw (posts_in-append h se pic as' bs, append_assoc) refl

posts_in-find :
    (h : Heap) (se pic c : ℕ) (n : Node) (cmap : List (ℕ × ℕ))
    → find c h ≡ some n
    → find c cmap ≡ some c
    → Within (own_posts n se pic true) (posts_in h se pic cmap)
posts_in-find h se pic c n cmap e there =
    let (front, back, s) = find-split c c cmap there in
    (
      posts_in h se pic front,
      posts_in h se pic back,
      rw (s, posts_in-append h se pic front ((c, c) ∷ back), e) refl,
    )

posts_of-one :
    (strand se : ℕ) (s : Subscription) (pre post : List Subscription)
    → s.session_key ≡ se
    → Within
        (record { strand_key = strand; cb = s.cb; session = se } ∷ [])
        (posts_of strand (pre ++ (s ∷ post)) se true)
unfolding posts_of
posts_of-one strand se s [] post e =
    let b : (s.session_key == se) ≡ true = (==_iff s.session_key se).1 e in
    rw (b) ([], posts_of strand post se true, refl)
posts_of-one strand se s (x ∷ pre) post e = elim (Bool-cases (x.session_key == se)) [
  | inl b ↦ rw (b) (
      Within-right (record { strand_key = strand; cb = s.cb; session = se } ∷ [])
        (record { strand_key = strand; cb = x.cb; session = se } ∷ []) _
        (posts_of-one strand se s pre post e))
  | inr b ↦ rw (b) (posts_of-one strand se s pre post e)
]

Within-trans : (xs ys zs : List Post) → Within xs ys → Within ys zs → Within xs zs
Within-trans xs ys zs (f, b, e) (f', b', e') =
    (f' ++ f, b ++ b', rw (e', e, append_assoc f, append_assoc xs, append_assoc f') refl)

All-middle {ℓ} :
    {A : Type 0} (P : A → Type ℓ) (pre : List A) (a : A) (post : List A)
    → All P (pre ++ (a ∷ post))
    → P a
All-middle P [] a post (p, h) = p
All-middle P (x ∷ pre) a post (p, h) = All-middle P pre a post h

abbrev alone : Node → Subscription → List Post
alone n s = record { strand_key = n.strand_key; cb = s.cb; session = s.session_key } ∷ []

heard-posts :
    (h : Heap) (root : ℕ) (r : Node) (pic c : ℕ) (n : Node) (s : Subscription)
    (pre post : List Subscription)
    → IsTree h root r
    → find c h ≡ some n
    → (n.parent == 0) ≡ false
    → subscriptions_of n pic ≡ pre ++ (s ∷ post)
    → Within (alone n s) (posts_in h s.session_key pic (interested r s.session_key pic))
heard-posts h root r pic c n s pre post t e other subs =
    let known =
      All-middle (λ x. find c (interested r x.session_key pic) ≡ some c) pre s post
        (subst (All (λ x. find c (interested r x.session_key pic) ≡ some c)) subs
          (t.heard c n pic e other)) in
    let one =
      subst (λ l. Within (alone n s) (posts_of n.strand_key l s.session_key true)) (sym subs)
        (posts_of-one n.strand_key s.session_key s pre post refl) in
    Within-trans (alone n s) (own_posts n s.session_key pic true) _ one
      (posts_in-find h s.session_key pic c n (interested r s.session_key pic) e known)

-- A frame that the root publishes for a session reaches every subscription of a child to its topic
-- that was made for this session or for none: `publish` returns, and the receiver is posted on the
-- child's strand. It is given the session of its subscription, the null session if it has none.
pub publish-reaches :
    (h : Heap) (root : ℕ) (r : Node) (se pic c : ℕ) (n : Node) (s : Subscription)
    (pre post : List Subscription)
    → IsTree h root r
    → find c h ≡ some n
    → (n.parent == 0) ≡ false
    → subscriptions_of n pic ≡ pre ++ (s ∷ post)
    → (s.session_key ≡ 0) ⊎ (s.session_key ≡ se)
    → (posts : List Post) × (publish h root se pic ≡ ret posts)
      × Within (record { strand_key = n.strand_key; cb = s.cb; session = s.session_key } ∷ []) posts
publish-reaches h root r se pic c n s pre post t e other subs target = (
  _,
  publish_posts h root r se pic t,
  Within-right (alone n s) (own_posts r se pic false) _ (place target),
)
  where
    there : Within (alone n s) (posts_in h s.session_key pic (interested r s.session_key pic))
    there = heard-posts h root r pic c n s pre post t e other subs

    in_any :
        s.session_key ≡ 0
        → Within
            (alone n s)
            (posts_in h 0 pic (interested r 0 pic) ++ posts_in h se pic (group r se pic))
    in_any k =
        Within-left (alone n s) _ _
          (subst (λ t. Within (alone n s) (posts_in h t pic (interested r t pic))) k there)

    place :
        ((s.session_key ≡ 0) ⊎ (s.session_key ≡ se))
        → Within
            (alone n s)
            (posts_in h 0 pic (interested r 0 pic) ++ posts_in h se pic (group r se pic))
    place (inl k) = in_any k
    place (inr k) = elim (Bool-cases (se == 0)) [
      | inl z ↦ in_any (k ∙ (==_iff se 0).0 z)
      | inr z ↦
          let at_se =
            subst (λ t. Within (alone n s) (posts_in h t pic (interested r t pic))) k there in
          let whole : group r se pic ≡ interested r se pic = unfold group in rw (z) refl in
          Within-right (alone n s) (posts_in h 0 pic (interested r 0 pic)) _
            (subst (λ l. Within (alone n s) (posts_in h se pic l)) (sym whole) at_se)
    ]

-- Where a post comes from: a pulse that lives, and one of its subscriptions to the topic, for the
-- session or for none.
abbrev pub IsWanted : Heap → ℕ → ℕ → Post → Type 0
IsWanted h se pic p =
    (c : ℕ) × (n : Node) × (s : Subscription) × (pre : List Subscription) × (post : List
      Subscription)
    × (find c h ≡ some n)
    × (subscriptions_of n pic ≡ pre ++ (s ∷ post))
    × ((s.session_key ≡ 0) ⊎ (s.session_key ≡ se))
    × (p.cb ≡ s.cb)
    × (p.strand_key ≡ n.strand_key)

posts_of-IsWanted :
    (h : Heap) (se pic c : ℕ) (n : Node) (key : ℕ) (from_root : Bool)
    (ok : (k : ℕ) → is_target k key from_root ≡ true → (k ≡ 0) ⊎ (k ≡ se))
    (pre subs : List Subscription)
    → find c h ≡ some n
    → subscriptions_of n pic ≡ pre ++ subs
    → All (IsWanted h se pic) (posts_of n.strand_key subs key from_root)
unfolding posts_of
posts_of-IsWanted h se pic c n key from_root ok pre [] e whole = tt
posts_of-IsWanted h se pic c n key from_root ok pre (s ∷ subs) e whole =
    let rest =
      posts_of-IsWanted h se pic c n key from_root ok (pre ++ (s ∷ [])) subs e
        (whole ∙ sym (append_assoc pre (s ∷ []) subs)) in
    elim (Bool-cases (is_target s.session_key key from_root)) [
      | inl b ↦ rw (b) ((c, n, s, pre, subs, e, whole, ok s.session_key b, refl, refl), rest)
      | inr b ↦ rw (b) rest
    ]

posts_in-IsWanted :
    (h : Heap) (se pic key : ℕ) (cmap : List (ℕ × ℕ))
    → ((k : ℕ) → (k == key) ≡ true → (k ≡ 0) ⊎ (k ≡ se))
    → All (IsWanted h se pic) (posts_in h key pic cmap)
posts_in-IsWanted h se pic key [] ok = tt
posts_in-IsWanted h se pic key ((k, c) ∷ cmap) ok = elim (Option-cases (find c h)) [
  | inl e ↦ rw (e) (posts_in-IsWanted h se pic key cmap ok)
  | inr (n, e) ↦ rw (e) (
      All-append (IsWanted h se pic) _ _
        (posts_of-IsWanted h se pic c n key true ok [] (subscriptions_of n pic) e refl)
        (posts_in-IsWanted h se pic key cmap ok))
]

-- Nothing else is posted.
pub publish-IsWanted :
    (h : Heap) (root : ℕ) (r : Node) (se pic : ℕ) (posts : List Post)
    → IsTree h root r
    → publish h root se pic ≡ ret posts
    → All (IsWanted h se pic) posts
publish-IsWanted h root r se pic posts t e =
    let same = ret-injective (sym (publish_posts h root r se pic t) ∙ e) in
    subst (All (IsWanted h se pic)) same (
      All-append (IsWanted h se pic) _ _
        (posts_of-IsWanted h se pic root r se false (λ k b. ground (arith)) []
          (subscriptions_of r pic) t.top refl)
        (All-append (IsWanted h se pic) _ _
          (posts_in-IsWanted h se pic 0 (interested r 0 pic) (λ k b. inl ((==_iff k 0).0 b)))
          (posts_in-IsWanted h se pic se (group r se pic) (λ k b. inr ((==_iff k se).0 b)))))
