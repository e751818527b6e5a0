-- ===== src/Net/Timer.antt =====
-- play/net/runner/timer_service.ipp, the timers of play/net/runner.hpp, and those of pulse.ipp. A
-- timer is the handlers that wait in asio for its time and those that asio has posted since; when
-- time is up, and when a posted handler is run, are steps. What the caller's handler does is whether
-- its n-th call cancels the timer.
pub mod Firing
pub mod Tests
use play.Common.{ℕ, suc, ◌%◌, Bool, true, false, not, List, [], ◌∷◌, ◌++◌}
use play.Common.Tests.{ltb, ◌==◌, if◌then◌else◌}
use play.Common.Outcome.{Outcome, ret, faults, ◌>>=◌, ◌>>◌, Build, play_check}

-- The two lambdas that are given to `async_wait`.
pub data Waiter : Type 0 where
  calls_handler calls_repeat : Waiter

pub record Timer : Type 0 where
  pub has_strand : Bool
  pub is_set : Bool
  pub is_once : Bool
  pub is_repeat : Bool
  pub waiting : List Waiter
  pub posted : List Waiter
  pub calls : ℕ
  pub alive : Bool

-- The two constructors.
unfoldable pub new_timer : Bool → Timer
new_timer has_strand = record {
  has_strand = has_strand;
  is_set = false;
  is_once = false;
  is_repeat = false;
  waiting = [];
  posted = [];
  calls = 0;
  alive = true;
}

-- `cancel` and `expires_from_now` of asio's timer: what waits is posted at once, with an error code.
unfoldable pub post_waiting : Timer → Timer
post_waiting t = record t { waiting = []; posted = t.posted ++ t.waiting }

-- `expires_from_now` and `async_wait`.
unfoldable pub arm : Waiter → Timer → Timer
arm w t = record (post_waiting t) { waiting = w ∷ [] }

unfoldable pub once : Build → Timer → Outcome Timer
unfolding arm
once m t = do
  play_check m (not t.is_set)
  ret (arm calls_handler (record t { is_set = true; is_once = true; is_repeat = false }))

unfoldable pub repeat : Timer → Timer
unfolding arm
repeat t =
    let t' = record t { is_set = true; is_once = false; is_repeat = true } in
    if t.has_strand then arm calls_handler t' else arm calls_repeat t'

unfoldable pub cancel : Timer → Timer
cancel t = if t.is_set then record (post_waiting t) { is_set = false } else t

-- The destructor, and that of asio's timer behind it.
unfoldable pub destroy_timer : Timer → Timer
unfolding cancel
destroy_timer t = record (post_waiting (cancel t)) { alive = false }

-- Time is up.
unfoldable pub expire : Timer → Timer
expire t = post_waiting t

module _ (cancels : ℕ → Bool) where
  -- `handler(*this)`.
  unfoldable pub call_handler : Timer → Timer
  unfolding cancel
  call_handler t =
      let t' = record t { calls = suc t.calls } in if cancels t.calls then cancel t' else t'

  unfoldable pub repeat_call : Timer → Timer
  unfolding call_handler arm
  repeat_call t = let t' = call_handler t in if t'.is_set then arm calls_repeat t' else t'

  unfoldable pub run_waiter : Waiter → Timer → Timer
  run_waiter calls_handler t = call_handler t
  run_waiter calls_repeat t = repeat_call t

  -- The runner takes the first posted handler, which reads the timer through `this`.
  unfoldable pub run_front : List Waiter → Timer → Outcome Timer
  unfolding run_waiter
  run_front [] t = ret t
  run_front (w ∷ rest) t =
      if t.alive then ret (run_waiter w (record t { posted = rest })) else faults

  unfoldable pub run_posted : Timer → Outcome Timer
  unfolding run_front
  run_posted t = run_front t.posted t

-- `get_strand`; the remainder by no strands is undefined.
unfoldable pub get_strand : ℕ → ℕ → Outcome ℕ
get_strand strand_count strand_key =
    if strand_count == 0 then faults else ret (strand_key % strand_count)

-- `once` and `repeat` of a runner, with a strand key or without; the timer is new.
unfoldable pub runner_once : Build → Timer → Outcome Timer
unfolding once
runner_once m fresh = once m fresh

unfoldable pub runner_once_at : Build → ℕ → ℕ → Outcome (ℕ × Timer)
unfolding once get_strand
runner_once_at m strand_count strand_key = do
  strand ← get_strand strand_count strand_key
  t ← once m (new_timer true)
  ret (strand, t)

unfoldable pub runner_repeat_at : ℕ → ℕ → Outcome (ℕ × Timer)
unfolding repeat get_strand
runner_repeat_at strand_count strand_key = do
  strand ← get_strand strand_count strand_key
  ret (strand, repeat (new_timer true))

-- `repeat` of a pulse: on its strand where it has a key.
unfoldable pub pulse_repeat : ℕ → ℕ → Outcome Timer
unfolding runner_repeat_at
pulse_repeat strand_count strand_key =
    if ltb 0 strand_key
    then runner_repeat_at strand_count strand_key >>= (λ r. ret r.1)
    else ret (repeat (new_timer false))

unfoldable pub pulse_once : Build → ℕ → ℕ → Outcome Timer
unfolding runner_once_at
pulse_once m strand_count strand_key =
    if ltb 0 strand_key
    then runner_once_at m strand_count strand_key >>= (λ r. ret r.1)
    else once m (new_timer false)
