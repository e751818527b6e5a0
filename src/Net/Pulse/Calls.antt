-- ===== src/Net/Pulse/Calls.antt =====
-- The data of a pulse, and the functions of pulse.ipp that work on it alone.
use play.Common.{
  ℕ, ◌+◌, Bool, false, not, none, some, List, [], ◌∷◌, ◌++◌, map, ◌==◌, if◌then◌else◌,
}
use play.Common.Outcome.{Outcome, ret, faults, ◌>>=◌, ◌>>◌, Build, play_check}
use play.Common.Map.{is_some, or_some, find, assign, nat_key}

-- A `receiver`: one of the application, or one of the two lambdas that `call` subscribes.
pub data Receiver : Type 0 where
  handler : ℕ → Receiver
  reply_receiver : ℕ → Receiver
  closed_receiver : Receiver

pub record Subscription : Type 0 where
  pub session_key : ℕ
  pub cb : Receiver

pub record Caller : Type 0 where
  pub call_id : ℕ
  pub cb : ℕ

pub record TopicCalls : Type 0 where
  pub call_index : ℕ
  pub reply_index : ℕ
  pub callers : List Caller

-- A child pulse with its session.
pub record Pulse : Type 0 where
  pub session : ℕ
  pub subscriptions : List (ℕ × List Subscription)
  pub calls : List (ℕ × TopicCalls)
  pub call_pairs : List (ℕ × ℕ)

abbrev pub topic_closed : ℕ
topic_closed = 2

abbrev pub no_calls : TopicCalls
no_calls = record { call_index = 0; reply_index = 0; callers = [] }

-- The part of `subscribe` that fills the pulse's own map.
unfoldable pub subscribe : Pulse → ℕ → Receiver → Pulse
subscribe p pic cb =
    let subs = or_some (find pic p.subscriptions) [] in
    let sub : Subscription = record { session_key = p.session; cb = cb } in
    record p { subscriptions = assign pic (subs ++ (sub ∷ [])) p.subscriptions }

unfoldable pub has_subscription : Pulse → ℕ → Bool
has_subscription p pic = is_some (find pic p.subscriptions)

unfoldable pub call_subscribe_reply : Pulse → ℕ → Pulse
unfolding has_subscription subscribe
call_subscribe_reply p pic =
    if not (has_subscription p pic) then subscribe p pic (reply_receiver pic) else p

unfoldable pub call_subscribe_closed : Pulse → Pulse
unfolding has_subscription subscribe
call_subscribe_closed p =
    if not (has_subscription p topic_closed) then subscribe p topic_closed closed_receiver else p

-- A new caller behind the others of its topic.
unfoldable pub push_caller : TopicCalls → ℕ → TopicCalls
push_caller t cb =
    let call_index = t.call_index + 1 in
    record t {
      call_index = call_index;
      callers = t.callers ++ (record { call_id = call_index; cb = cb } ∷ []);
    }

-- The block of `call` under the lock.
unfoldable pub add_caller : Pulse → ℕ → ℕ → ℕ → Pulse
unfolding push_caller
add_caller p req res cb =
    let tcalls = or_some (find req p.calls) no_calls in
    record p {
      calls = assign req (push_caller tcalls cb) p.calls;
      call_pairs = assign res req p.call_pairs;
    }

-- `call` on a child pulse; it checks that there is a session.
unfoldable pub call : Build → Pulse → ℕ → ℕ → ℕ → Outcome Pulse
unfolding call_subscribe_closed call_subscribe_reply add_caller
call m p req res cb = do
  play_check m (not (p.session == 0))
  ret (add_caller (call_subscribe_reply (call_subscribe_closed p) res) req res cb)

-- The oldest caller is answered. Without assertions, `front()` of an empty queue is undefined, and
-- an id that does not match is only logged.
unfoldable pub pop_caller : Build → TopicCalls → List Caller → Outcome TopicCalls
pop_caller m t [] = play_check m false >> faults
pop_caller m t (c ∷ rest) = do
  let reply_index = t.reply_index + 1
  play_check m (c.call_id == reply_index)
  ret (record t { reply_index = reply_index; callers = rest })

unfoldable pub call_receive : Build → Pulse → ℕ → Outcome Pulse
unfolding pop_caller
call_receive m p pic = do
  play_check m (not (p.session == 0))
  elim (find pic p.call_pairs) [
    | none ↦ ret p
    | some req ↦ elim (find req p.calls) [
      | none ↦ ret p
      | some t ↦ do t' ← pop_caller m t t.callers; ret (record p { calls = assign req t' p.calls })
    ]
  ]

unfoldable pub all_callers : List (ℕ × TopicCalls) → List ℕ
all_callers [] = []
all_callers ((req, t) ∷ calls) = map (λ c. c.cb) t.callers ++ all_callers calls

-- `call_closed`: the callbacks that are posted, in the order in which they are collected.
unfoldable pub call_closed : Build → Pulse → ℕ → Outcome (Pulse × List ℕ)
unfolding all_callers
call_closed m p se = do
  play_check m (not (p.session == 0))
  ret (if not (se == p.session) then (p, []) else (record p { calls = [] }, all_callers p.calls))
