-- ===== src/Net/Pulse/Pending.antt =====
-- Calls and replies of a pulse, seen from outside: each request topic has a queue of pending
-- calls, and a reply answers the oldest one.
use play.Common.{
  ℕ, ◌+◌, ◌≡◌, refl, sym, ap, subst, ◌∙◌, inl, inr, false, not, some, List, [], ◌∷◌, ◌++◌, map,
  append_assoc, map-append, ◌==◌, if◌then◌else◌, ==_refl, Bool-cases, Option-cases,
}
use play.Common.Outcome.{ret, Build, play_check-true, play_check-ret, ret-injective}
use play.Common.Map.{or_some, find, assign, find-assign, nat_key}
use play.Net.Pulse.Calls.{
  Caller, TopicCalls, Pulse, topic_closed, no_calls, subscribe, has_subscription,
  call_subscribe_reply, call_subscribe_closed, push_caller, add_caller, call, pop_caller,
  call_receive, all_callers, call_closed,
}

-- The ids of the callers count on from the one after `r` and end at `c`.
unfoldable pub Consecutive : ℕ → List Caller → ℕ → Type 0
Consecutive r [] c = r ≡ c
Consecutive r (x ∷ xs) c = (x.call_id ≡ r + 1) × Consecutive (r + 1) xs c

-- What the pulse keeps for a request.
unfoldable pub topic_calls : Pulse → ℕ → TopicCalls
topic_calls p req = or_some (find req p.calls) no_calls

-- The callbacks that wait for a reply to a request, the oldest first.
unfoldable pub pending : Pulse → ℕ → List ℕ
unfolding topic_calls
pending p req = map (λ c. c.cb) (topic_calls p req).callers

-- No id of a topic is lost or out of order.
unfoldable pub IsCounted : Pulse → Type 0
unfolding Consecutive topic_calls
IsCounted p =
    (req : ℕ)
    → Consecutive (topic_calls p req).reply_index (topic_calls p req).callers
        (topic_calls p req).call_index

Consecutive-snoc :
    (r : ℕ) (xs : List Caller) (c cb : ℕ)
    → Consecutive r xs c
    → Consecutive r (xs ++ (record { call_id = c + 1; cb = cb } ∷ [])) (c + 1)
unfolding Consecutive
Consecutive-snoc r [] c cb h = (ap (λ n. n + 1) (sym h), ap (λ n. n + 1) h)
Consecutive-snoc r (x ∷ xs) c cb (e, h) = (e, Consecutive-snoc (r + 1) xs c cb h)

push_caller-Consecutive :
    (t : TopicCalls) (cb : ℕ)
    → Consecutive t.reply_index t.callers t.call_index
    → (let u = push_caller t cb in Consecutive u.reply_index u.callers u.call_index)
unfolding push_caller
push_caller-Consecutive t cb h = Consecutive-snoc t.reply_index t.callers t.call_index cb h

subscribed-calls :
    (p : Pulse) (res : ℕ) → (call_subscribe_reply (call_subscribe_closed p) res).calls ≡ p.calls
unfolding call_subscribe_reply call_subscribe_closed subscribe
subscribed-calls p res = elim (Bool-cases (not (has_subscription (call_subscribe_closed p) res))) [
  | inl e ↦ rw (e) (subscribed_closed-calls p)
  | inr e ↦ rw (e) (subscribed_closed-calls p)
]
  where
    subscribed_closed-calls : (p : Pulse) → (call_subscribe_closed p).calls ≡ p.calls
    subscribed_closed-calls p = elim (Bool-cases (not (has_subscription p topic_closed))) [
      | inl e ↦ rw (e) refl
      | inr e ↦ rw (e) refl
    ]

topic_calls-assign :
    (p q : Pulse) (req other : ℕ) (t : TopicCalls)
    → q.calls ≡ assign req t p.calls
    → topic_calls q other ≡ (if req == other then t else topic_calls p other)
unfolding topic_calls
topic_calls-assign p q req other t e =
    rw (e, find-assign other req t p.calls)
      (elim (Bool-cases (req == other)) [ inl same ↦ rw (same) refl | inr apart ↦ rw (apart) refl ])

topic_calls-call :
    (m : Build) (p : Pulse) (req res cb other : ℕ) {q : Pulse}
    → call m p req res cb ≡ ret q
    → topic_calls q other
      ≡ (if req == other then push_caller (topic_calls p req) cb else topic_calls p other)
unfolding call add_caller topic_calls
topic_calls-call m p req res cb other {q} h =
    let r = play_check-ret m (not (p.session == 0)) h in
    let e : (add_caller (call_subscribe_reply (call_subscribe_closed p) res) req res cb).calls
        ≡ q.calls =
      ap (λ o. o.calls) (ret-injective r) in
    topic_calls-assign p q req other (push_caller (topic_calls p req) cb) (
      sym e
      ∙ ap (λ cs. assign req (push_caller (or_some (find req cs) no_calls) cb) cs)
          (subscribed-calls p res))

-- A call that returns joins the queue of its request at the end, and no other queue changes.
pub pending-call :
    (m : Build) (p : Pulse) (req res cb other : ℕ) (q : Pulse)
    → call m p req res cb ≡ ret q
    → pending q other ≡ (if req == other then pending p req ++ (cb ∷ []) else pending p other)
unfolding pending push_caller
pending-call m p req res cb other q h =
    rw (topic_calls-call m p req res cb other h) (elim (Bool-cases (req == other)) [
      | inl same ↦ rw (same) (map-append (λ c. c.cb) (topic_calls p req).callers _)
      | inr apart ↦ rw (apart) refl
    ])

-- A call that returns keeps the ids of the callers of every topic consecutive.
pub call-IsCounted :
    (m : Build) (p : Pulse) (req res cb : ℕ) (q : Pulse)
    → IsCounted p
    → call m p req res cb ≡ ret q
    → IsCounted q
unfolding IsCounted
call-IsCounted m p req res cb q counted h other =
    rw (topic_calls-call m p req res cb other h) (elim (Bool-cases (req == other)) [
      | inl same ↦ rw (same) (push_caller-Consecutive (topic_calls p req) cb (counted req))
      | inr apart ↦ rw (apart) (counted other)
    ])

-- The oldest caller of a topic whose ids are consecutive is answered without a failed check.
pop_caller-Consecutive :
    (m : Build) (t : TopicCalls) (c : Caller) (rest : List Caller)
    → Consecutive t.reply_index (c ∷ rest) t.call_index
    → pop_caller m t (c ∷ rest) ≡ ret (record t { reply_index = t.reply_index + 1; callers = rest })
unfolding pop_caller Consecutive
pop_caller-Consecutive m t c rest (e, h) =
    rw (e, ==_refl (t.reply_index + 1), play_check-true m) refl

map-cons {ℓ κ} :
    {A : Type ℓ} {B : Type κ} (f : A → B) (xs : List A) {b : B} {bs : List B}
    → map f xs ≡ b ∷ bs
    → (x : A) × (rest : List A) × (xs ≡ x ∷ rest) × (map f rest ≡ bs)
map-cons f [] e = cc
map-cons f (x ∷ rest) e = (x, rest, refl, cc)

-- `call_receive` where the topic is paired and its queue is not empty.
call_receive-front :
    (m : Build) (p : Pulse) (pic req : ℕ) (t : TopicCalls) (c : Caller) (cs : List Caller)
    → (p.session == 0) ≡ false
    → find pic p.call_pairs ≡ some req
    → find req p.calls ≡ some t
    → t.callers ≡ c ∷ cs
    → Consecutive t.reply_index t.callers t.call_index
    → call_receive m p pic
      ≡ ret (record p {
        calls = assign req (record t { reply_index = t.reply_index + 1; callers = cs }) p.calls;
      })
unfolding call_receive
call_receive-front m p pic req t c cs alive paired found front counted =
    rw
      (
        alive,
        play_check-true m,
        paired,
        found,
        front,
        pop_caller-Consecutive m t c cs
            (subst (λ l. Consecutive t.reply_index l t.call_index) front counted),
      )
      refl

-- The pulse after a reply, with the rest of the queue of its request.
abbrev after_reply : Pulse → ℕ → TopicCalls → List Caller → Pulse
after_reply p req t cs = record p {
  calls = assign req (record t { reply_index = t.reply_index + 1; callers = cs }) p.calls;
}

after_reply-IsCounted :
    (p : Pulse) (req : ℕ) (t : TopicCalls) (c : Caller) (cs : List Caller)
    → IsCounted p
    → Consecutive t.reply_index (c ∷ cs) t.call_index
    → IsCounted (after_reply p req t cs)
unfolding IsCounted Consecutive
after_reply-IsCounted p req t c cs counted (e, h) other =
    let u = record t { reply_index = t.reply_index + 1; callers = cs } in
    rw (topic_calls-assign p (after_reply p req t cs) req other u refl)
      (elim (Bool-cases (req == other)) [
        | inl same ↦ rw (same) h
        | inr apart ↦ rw (apart) (counted other)
      ])

after_reply-pending :
    (p : Pulse) (req other : ℕ) (t : TopicCalls) (cs : List Caller)
    → pending (after_reply p req t cs) other
      ≡ (if req == other then map (λ c. c.cb) cs else pending p other)
unfolding pending
after_reply-pending p req other t cs =
    let u = record t { reply_index = t.reply_index + 1; callers = cs } in
    rw (topic_calls-assign p (after_reply p req t cs) req other u refl)
      (elim (Bool-cases (req == other)) [ inl same ↦ rw (same) refl | inr apart ↦ rw (apart) refl ])

-- In a pulse with a session, whose topics have consecutive ids, a reply on a paired topic with a
-- pending call answers the oldest one: `call_receive` returns, it takes that call from its queue
-- and no other, and the ids stay consecutive.
pub call_receive-pending :
    (m : Build) (p : Pulse) (pic req cb : ℕ) (rest : List ℕ)
    → IsCounted p
    → (p.session == 0) ≡ false
    → find pic p.call_pairs ≡ some req
    → pending p req ≡ cb ∷ rest
    → (q : Pulse) × (call_receive m p pic ≡ ret q)
      × IsCounted q
      × ((other : ℕ) → pending q other ≡ (if req == other then rest else pending p other))
unfolding IsCounted pending topic_calls
call_receive-pending m p pic req cb rest counted alive paired waiting =
    elim (Option-cases (find req p.calls)) [
      | inl e ↦ cc
      | inr (t, e) ↦
          let is_t : topic_calls p req ≡ t = ap (λ o. or_some o no_calls) e in
          let (c, cs, front, others) =
            map-cons (λ c. c.cb) t.callers
              (sym (ap (λ u. map (λ c. c.cb) u.callers) is_t) ∙ waiting) in
          let h =
            subst (λ u. Consecutive u.reply_index u.callers u.call_index) is_t (counted req) in
          let from_c = subst (λ l. Consecutive t.reply_index l t.call_index) front h in
          (
            after_reply p req t cs,
            call_receive-front m p pic req t c cs alive paired e front h,
            after_reply-IsCounted p req t c cs counted from_c,
            λ other.
                after_reply-pending p req other t cs
                ∙ ap (λ l. if req == other then l else pending p other) others,
          )
    ]

map-in_all_callers :
    (req : ℕ) (calls : List (ℕ × TopicCalls))
    → (front : List ℕ) × (back : List ℕ) × (all_callers calls
        ≡ front ++ (map (λ c. c.cb) (or_some (find req calls) no_calls).callers ++ back))
unfolding all_callers find
map-in_all_callers req [] = ([], [], refl)
map-in_all_callers req ((r, t) ∷ calls) = elim (Bool-cases (r == req)) [
  | inl same ↦ ([], all_callers calls, rw (same) refl)
  | inr apart ↦
      let (front, back, e) = map-in_all_callers req calls in
      let here = map (λ c. c.cb) t.callers in
      (here ++ front, back, rw (apart, append_assoc here front) (ap (λ l. here ++ l) e))
]

-- When the session of a pulse that has one closes, `call_closed` posts every pending callback of
-- every request, those of one request in the order of their calls, and no call is pending after
-- it.
pub call_closed-pending :
    (m : Build) (p : Pulse) (req : ℕ)
    → (p.session == 0) ≡ false
    → (q : Pulse) × (posted : List ℕ) × (call_closed m p p.session ≡ ret (q, posted))
      × (pending q req ≡ [])
      × (front : List ℕ) × (back : List ℕ) × (posted ≡ front ++ (pending p req ++ back))
unfolding call_closed pending topic_calls find
call_closed-pending m p req alive =
    let (front, back, e) = map-in_all_callers req p.calls in
    (
      record p { calls = [] },
      all_callers p.calls,
      rw (alive, play_check-true m, ==_refl p.session) refl,
      refl,
      front,
      back,
      e,
    )
