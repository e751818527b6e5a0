-- ===== src/Net/Pulse/Tests.antt =====
-- A pulse that calls twice and gets one reply.
use play.Base.StringUtil.Tokens.{IsToken, join}
use play.Net.Address.{colon}
use play.Net.Pulse.Tree.{unset}
use play.Net.Pulse.Start.{Setup, as_client, start_pulse}
use play.Net.Pulse.Start.Addresses.{as_client-start_pulse}
use play.Common.{ℕ, ◌-◌, ◌≡◌, refl, Bool, true, false, some, List, [], ◌∷◌, ◌++◌}
use play.Common.Tests.{◌==◌, if◌then◌else◌}
use play.Common.Outcome.{Outcome, ret, throws, ◌>>=◌, debug, play_check}
use play.Common.Map.{or_some, find, place, replace, assign, nat_key}
use play.Net.Pulse.Calls.{
  handler, reply_receiver, closed_receiver, Subscription, Pulse, topic_closed, subscribe,
  has_subscription, call_subscribe_reply, call_subscribe_closed, push_caller, add_caller, call,
  call_receive, call_closed,
}
use play.Net.Pulse.Pending.{
  Consecutive, topic_calls, pending, IsCounted, pending-call, call-IsCounted, call_receive-pending,
  call_closed-pending,
}
use play.Net.Pulse.Replies.{call-reply_subscription}

-- With a session at address 900, before any call.
abbrev idle : Pulse
idle = record { session = 900; subscriptions = []; calls = []; call_pairs = [] }

idle-IsCounted : IsCounted idle
unfolding IsCounted topic_calls Consecutive find
idle-IsCounted req = refl

abbrev expected_subscriptions : List (ℕ × List Subscription)
expected_subscriptions =
    (topic_closed, record { session_key = 900; cb = closed_receiver } ∷ [])
    ∷ (21, record { session_key = 900; cb = reply_receiver 21 } ∷ [])
    ∷ []

abbrev called_once : Pulse
called_once = record {
  session = 900;
  subscriptions = expected_subscriptions;
  calls =
      (
        20,
        record { call_index = 1; reply_index = 0; callers = record { call_id = 1; cb = 5 } ∷ [] },
      )
      ∷ [];
  call_pairs = (21, 20) ∷ [];
}

abbrev called_twice : Pulse
called_twice = record {
  session = 900;
  subscriptions = expected_subscriptions;
  calls =
      (
        20,
        record {
          call_index = 2;
          reply_index = 0;
          callers = record { call_id = 1; cb = 5 } ∷ record { call_id = 2; cb = 6 } ∷ [];
        },
      )
      ∷ [];
  call_pairs = (21, 20) ∷ [];
}

call_first : call debug idle 20 21 5 ≡ ret called_once
unfolding call call_subscribe_closed call_subscribe_reply subscribe has_subscription add_caller
    push_caller play_check find assign place replace
call_first = refl

call_second : call debug called_once 20 21 6 ≡ ret called_twice
unfolding call call_subscribe_closed call_subscribe_reply subscribe has_subscription add_caller
    push_caller play_check find assign place replace
call_second = refl

pending-call_example :
    pending called_twice 20
    ≡ (if 20 == 20 then pending called_once 20 ++ (6 ∷ []) else pending called_once 20)
pending-call_example = pending-call debug called_once 20 21 6 20 called_twice call_second

call-IsCounted_test : IsCounted called_once
call-IsCounted_test = call-IsCounted debug idle 20 21 5 called_once idle-IsCounted call_first

called_twice-IsCounted : IsCounted called_twice
called_twice-IsCounted =
    call-IsCounted debug called_once 20 21 6 called_twice
      (call-IsCounted debug idle 20 21 5 called_once idle-IsCounted call_first) call_second

called_twice-paired : find 21 called_twice.call_pairs ≡ some 20
unfolding find
called_twice-paired = refl

called_twice-pending : pending called_twice 20 ≡ 5 ∷ 6 ∷ []
unfolding pending topic_calls find
called_twice-pending = refl

call_receive-pending_example :
    (q : Pulse) × (call_receive debug called_twice 21 ≡ ret q)
    × IsCounted q
    × ((other : ℕ) → pending q other ≡ (if 20 == other then 6 ∷ [] else pending called_twice other))
call_receive-pending_example =
    call_receive-pending debug called_twice 21 20 5 (6 ∷ []) called_twice-IsCounted refl
      called_twice-paired called_twice-pending

call_closed-pending_example :
    (q : Pulse) × (posted : List ℕ) × (call_closed debug called_twice called_twice.session
      ≡ ret (q, posted))
    × (pending q 20 ≡ [])
    × (front : List ℕ) × (back : List ℕ) × (posted ≡ front ++ (pending called_twice 20 ++ back))
call_closed-pending_example = call_closed-pending debug called_twice 20 refl

-- The application has a receiver for 21 already: `call` adds none of its own.
abbrev own_receiver : Pulse
own_receiver = subscribe idle 21 (handler 8)

abbrev own_receiver_called : Pulse
own_receiver_called = add_caller (call_subscribe_closed own_receiver) 20 21 5

own_receiver-call : call debug own_receiver 20 21 5 ≡ ret own_receiver_called
unfolding call call_subscribe_closed call_subscribe_reply subscribe has_subscription add_caller
    push_caller play_check find assign place replace
own_receiver-call = refl

call-reply_subscription_example :
    find 21 own_receiver_called.subscriptions
    ≡ some (
        or_some
          (find 21 own_receiver.subscriptions)
          (record { session_key = own_receiver.session; cb = reply_receiver 21 } ∷ []))
call-reply_subscription_example =
    call-reply_subscription debug own_receiver 20 21 5 own_receiver_called refl own_receiver-call

-- "h:1" for a pulse that is not set up yet.
abbrev raw : Setup
raw = record {
  mode = unset;
  runner = 0;
  port = 0;
  addr = [];
  parent = 0;
  strand_key = 0;
  session = 0;
  final = false;
}

abbrev digit : List ℕ → ℕ
digit [] = 0
digit (d ∷ ds) = d - 48

abbrev any_port : ℕ → Bool
any_port port = true

abbrev to_one : List ℕ → ℕ → Outcome Bool
to_one [] port = throws
to_one (c ∷ host) port = ret (port == 1)

as_client-start_pulse_example :
    ((as_client debug 5 (join colon ((104 ∷ []) ∷ (49 ∷ []) ∷ [])) raw
        >>= start_pulse digit any_port to_one debug [])
      ≡ ret true)
    × ((as_client debug 5 (join colon ((104 ∷ []) ∷ [])) raw
          >>= start_pulse digit any_port to_one debug [])
        ≡ throws)
as_client-start_pulse_example =
    as_client-start_pulse digit any_port to_one debug [] 5 (104 ∷ []) (49 ∷ []) raw (λ n. refl) refl
      h_is_token one_is_token
  where
    h_is_token : IsToken colon (104 ∷ [])
    h_is_token = (λ e. cc, (refl, tt))

    one_is_token : IsToken colon (49 ∷ [])
    one_is_token = (λ e. cc, (refl, tt))
