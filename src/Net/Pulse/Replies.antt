-- ===== src/Net/Pulse/Replies.antt =====
-- Who hears the reply to a call: `call_subscribe_reply` looks for any subscription of the topic.
use play.Common.Outcome.{ret, Build, play_check-ret, ret-injective}
use play.Common.{
  ℕ, ◌≡◌, refl, sym, ap, ap₂, ◌∙◌, inl, inr, false, not, some, List, [], ◌∷◌, ◌==◌, ==_refl,
  Bool-cases, Option-cases,
}
use play.Common.Map.{is_some, or_some, find, find-assign, nat_key}
use play.Net.Pulse.Calls.{
  reply_receiver, Subscription, Pulse, topic_closed, subscribe, has_subscription,
  call_subscribe_reply, call_subscribe_closed, add_caller, call,
}

subscribed_closed-find :
    (p : Pulse) (res : ℕ)
    → (topic_closed == res) ≡ false
    → find res (call_subscribe_closed p).subscriptions ≡ find res p.subscriptions
unfolding call_subscribe_closed subscribe has_subscription
subscribed_closed-find p res apart =
    elim (Bool-cases (is_some (find topic_closed p.subscriptions))) [
      | inl e ↦ rw (e) refl
      | inr e ↦ rw (e, find-assign res topic_closed _ p.subscriptions, apart) refl
    ]

subscribed_closed-session : (p : Pulse) → (call_subscribe_closed p).session ≡ p.session
unfolding call_subscribe_closed subscribe
subscribed_closed-session p = elim (Bool-cases (not (has_subscription p topic_closed))) [
  | inl e ↦ rw (e) refl
  | inr e ↦ rw (e) refl
]

call_subscribe_reply-find :
    (p : Pulse) (res : ℕ)
    → find res (call_subscribe_reply p res).subscriptions
      ≡ some (
          or_some
            (find res p.subscriptions)
            (record { session_key = p.session; cb = reply_receiver res } ∷ []))
unfolding call_subscribe_reply subscribe has_subscription
call_subscribe_reply-find p res = elim (Option-cases (find res p.subscriptions)) [
  | inl e ↦ rw (e, find-assign res res _ p.subscriptions, ==_refl res) refl
  | inr (subs, e) ↦ rw (e, e) refl
]

-- After a call that returns, on any reply topic but `topic_closed`, that topic has the
-- subscriptions it had before; the receiver of `call`, which answers the pending call, is there
-- only if there were none.
pub call-reply_subscription :
    (m : Build) (p : Pulse) (req res cb : ℕ) (q : Pulse)
    → (topic_closed == res) ≡ false
    → call m p req res cb ≡ ret q
    → find res q.subscriptions
      ≡ some (
          or_some
            (find res p.subscriptions)
            (record { session_key = p.session; cb = reply_receiver res } ∷ []))
unfolding call add_caller
call-reply_subscription m p req res cb q apart h =
    let r = play_check-ret m (not (p.session == 0)) h in
    let e = ap (λ o. o.subscriptions) (ret-injective r) in
    let own : ℕ → List Subscription =
      λ k. record { session_key = k; cb = reply_receiver res } ∷ [] in
    ap (λ subs. find res subs) (sym e)
    ∙ call_subscribe_reply-find (call_subscribe_closed p) res
    ∙ ap₂ (λ o k. some (or_some o (own k))) (subscribed_closed-find p res apart)
        (subscribed_closed-session p)
