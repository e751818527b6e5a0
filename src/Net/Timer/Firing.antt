-- ===== src/Net/Timer/Firing.antt =====
-- How often a timer calls its handler.
use play.Common.{
  ℕ, zero, suc, ◌+◌, ◌≤◌, ◌<◌, ◌≡◌, refl, sym, ap, subst, ◌∙◌, inl, inr, Bool, true, false, not,
  List, [], ◌∷◌, ◌++◌, append-nil, arith,
}
use play.Common.Tests.{ltb, ◌==◌, if◌then◌else◌, lt→ltb, Bool-cases}
use play.Common.Lists.{length, All, length-append, All-append}
use play.Common.Outcome.{Outcome, ret, faults, ◌>>=◌, Build, play_check, >>=-eq-ret, ret-injective}
use play.Net.Timer.{
  Waiter, calls_handler, calls_repeat, Timer, new_timer, post_waiting, arm, once, repeat, cancel,
  destroy_timer, expire, call_handler, repeat_call, run_waiter, run_front, run_posted, get_strand,
  runner_repeat_at, pulse_repeat,
}

if_alive :
    {A : Type 0} (alive : Bool) (r : Outcome A) {a : A}
    → (if alive then r else faults) ≡ ret a
    → r ≡ ret a
if_alive true r e = e
if_alive false r e = cc

module _ (cancels : ℕ → Bool) where
  -- What happens to a timer after it was armed.
  pub data TimerStep : Timer → Timer → Type 0 where
    expires : (t : Timer) → TimerStep t (expire t)
    is_cancelled : (t : Timer) → TimerStep t (cancel t)
    runs : (t t' : Timer) → run_posted cancels t ≡ ret t' → TimerStep t t'

  pub data TimerSteps : Timer → Timer → Type 0 where
    armed : (t : Timer) → TimerSteps t t
    and_step : (r s t : Timer) → TimerSteps r s → TimerStep s t → TimerSteps r t

  abbrev IsSingle : Waiter → Type 0
  IsSingle w = w ≡ calls_handler

  -- On a strand, with at most so many calls of the handler made or still to come; some may be lost.
  record Single (k : ℕ) (t : Timer) : Type 0 where
    on_strand : t.has_strand ≡ true
    no_repeat : All IsSingle (t.posted ++ t.waiting)
    at_most : t.calls + length (t.posted ++ t.waiting) ≤ k

  posted_all :
      (t : Timer) → (post_waiting t).posted ++ (post_waiting t).waiting ≡ t.posted ++ t.waiting
  unfolding post_waiting
  posted_all t = append-nil (t.posted ++ t.waiting)

  -- A timer with the same calls and the same handlers, waiting or posted.
  moved-Single :
      (k : ℕ) (t t' : Timer)
      → t'.has_strand ≡ t.has_strand
      → t'.calls ≡ t.calls
      → t'.posted ++ t'.waiting ≡ t.posted ++ t.waiting
      → Single k t
      → Single k t'
  moved-Single k t t' strand calls same h = record {
    on_strand = strand ∙ h.on_strand;
    no_repeat = subst (All IsSingle) (sym same) h.no_repeat;
    at_most = omega (arith, h.at_most, calls, ap length same);
  }

  post_waiting-Single : (k : ℕ) (t : Timer) → Single k t → Single k (post_waiting t)
  unfolding post_waiting
  post_waiting-Single k t h = moved-Single k t (post_waiting t) refl refl (posted_all t) h

  cancel-Single : (k : ℕ) (t : Timer) → Single k t → Single k (cancel t)
  unfolding cancel post_waiting
  cancel-Single k t h = elim (Bool-cases t.is_set) [
    | inl e ↦
        rw (e)
          (moved-Single k t (record (post_waiting t) { is_set = false }) refl refl (posted_all t) h)
    | inr e ↦ simp (e) h
  ]

  called-Single :
      (k : ℕ) (t : Timer) (rest : List Waiter)
      → t.posted ≡ calls_handler ∷ rest
      → Single k t
      → Single k (call_handler cancels (record t { posted = rest }))
  unfolding call_handler
  called-Single k t rest e h =
      let t1 : Timer = record t { posted = rest; calls = suc t.calls } in
      let front = ap (λ ws. ws ++ t.waiting) e in
      let h1 : Single k t1 = record {
        on_strand = h.on_strand;
        no_repeat = (subst (All IsSingle) front h.no_repeat).1;
        at_most = omega (arith, h.at_most, ap length front);
      } in
      elim (Bool-cases (cancels t.calls)) [
        | inl c ↦ rw (c) (cancel-Single k t1 h1)
        | inr c ↦ rw (c) h1
      ]

  run_front-Single :
      (k : ℕ) (ws : List Waiter) (t t' : Timer)
      → t.posted ≡ ws
      → Single k t
      → run_front cancels ws t ≡ ret t'
      → Single k t'
  unfolding run_front run_waiter
  run_front-Single k [] t t' front h e = subst (Single k) (ret-injective e) h
  run_front-Single k (calls_handler ∷ rest) t t' front h e =
      subst (Single k) (ret-injective (if_alive t.alive _ e)) (called-Single k t rest front h)
  run_front-Single k (calls_repeat ∷ rest) t t' front h e =
      let bad = (subst (All IsSingle) (ap (λ ws. ws ++ t.waiting) front) h.no_repeat).0 in cc

  step-Single : (k : ℕ) (t t' : Timer) → Single k t → TimerStep t t' → Single k t'
  unfolding expire run_posted
  step-Single k _ _ h (expires t) = post_waiting-Single k t h
  step-Single k _ _ h (is_cancelled t) = cancel-Single k t h
  step-Single k _ _ h (runs t t' e) = run_front-Single k t.posted t t' refl h e

  steps-Single : (k : ℕ) (t t' : Timer) → Single k t → TimerSteps t t' → Single k t'
  steps-Single k _ _ h (armed t) = h
  steps-Single k _ _ h (and_step r s t before last) =
      step-Single k s t (steps-Single k r s h before) last

  repeat-start : Single 1 (repeat (new_timer true))
  unfolding repeat arm post_waiting new_timer
  repeat-start = record { on_strand = refl; no_repeat = (refl, tt); at_most = omega arith }

  pub strand_calls : (t' : Timer) → TimerSteps (repeat (new_timer true)) t' → t'.calls ≤ 1
  strand_calls t' steps =
      let last = steps-Single 1 (repeat (new_timer true)) t' repeat-start steps in
      omega (arith, last.at_most)

  -- Another handler that waits.
  arm-Single : (k : ℕ) (t : Timer) → Single k t → Single (suc k) (arm calls_handler t)
  unfolding arm post_waiting
  arm-Single k t h = record {
    on_strand = h.on_strand;
    no_repeat =
        All-append IsSingle (t.posted ++ t.waiting) (calls_handler ∷ []) h.no_repeat (refl, tt);
    at_most = omega (arith, h.at_most, length-append (t.posted ++ t.waiting) (calls_handler ∷ []));
  }

  -- The same where the handler or others set the timer again, with the number of those calls of
  -- `once` and `repeat`.
  pub data SetSteps (m : Build) : ℕ → Timer → Timer → Type 0 where
    never_set : (t : Timer) → SetSteps m 0 t t
    steps_on : (n : ℕ) (r s t : Timer) → SetSteps m n r s → TimerStep s t → SetSteps m n r t
    sets_once :
        (n : ℕ) (r s t : Timer) → SetSteps m n r s → once m s ≡ ret t → SetSteps m (suc n) r t
    sets_repeat : (n : ℕ) (r s : Timer) → SetSteps m n r s → SetSteps m (suc n) r (repeat s)

  once-Single :
      (m : Build) (k : ℕ) (t t' : Timer) → Single k t → once m t ≡ ret t' → Single (suc k) t'
  unfolding once
  once-Single m k t t' h e =
      let (u, _, e1) = >>=-eq-ret (play_check m (not t.is_set)) _ e in
      let set : Timer = record t { is_set = true; is_once = true; is_repeat = false } in
      subst (Single (suc k)) (ret-injective e1)
        (arm-Single k set (moved-Single k t set refl refl refl h))

  repeat-Single : (k : ℕ) (t : Timer) → Single k t → Single (suc k) (repeat t)
  unfolding repeat
  repeat-Single k t h =
      let set : Timer = record t { is_set = true; is_once = false; is_repeat = true } in
      let armed : repeat t ≡ arm calls_handler set =
        ap (λ b. if b then arm calls_handler set else arm calls_repeat set) h.on_strand in
      subst (Single (suc k)) (sym armed) (arm-Single k set (moved-Single k t set refl refl refl h))

  set-Single :
      (m : Build) (n : ℕ) (t t' : Timer) → Single 1 t → SetSteps m n t t' → Single (suc n) t'
  set-Single m _ _ _ h (never_set t) = h
  set-Single m _ _ _ h (steps_on n r s t before last) =
      step-Single (suc n) s t (set-Single m n r s h before) last
  set-Single m _ _ _ h (sets_once n r s t before e) =
      once-Single m (suc n) s t (set-Single m n r s h before) e
  set-Single m _ _ _ h (sets_repeat n r s before) =
      repeat-Single (suc n) s (set-Single m n r s h before)

  strand_calls_set :
      (m : Build) (n : ℕ) (t' : Timer)
      → SetSteps m n (repeat (new_timer true)) t'
      → t'.calls ≤ suc n
  strand_calls_set m n t' steps =
      let last = set-Single m n (repeat (new_timer true)) t' repeat-start steps in
      omega (arith, last.at_most)

  -- A repeating timer of a pulse with a strand key, of a runner with some strands, calls its handler
  -- at most once, and once more for every later call of its `once` or `repeat`, however often its time
  -- is up, it is cancelled, and its posted handlers run, and whatever the handler cancels.
  pub strand_repeats_once :
      (m : Build) (strand_count strand_key n : ℕ) (t t' : Timer)
      → 0 < strand_key
      → 0 < strand_count
      → pulse_repeat strand_count strand_key ≡ ret t
      → SetSteps m n t t'
      → t'.calls ≤ suc n
  unfolding pulse_repeat runner_repeat_at get_strand
  strand_repeats_once m strand_count strand_key n t t' keyed some_strands e steps =
      let no_zero : (strand_count == 0) ≡ false = ground arith in
      let key : ltb 0 strand_key ≡ true = lt→ltb 0 strand_key keyed in
      let once_armed : ret (repeat (new_timer true)) ≡ ret t = rw (key, no_zero) at e in
      strand_calls_set m n t'
        (subst (λ u. SetSteps m n u t') (sym (ret-injective once_armed)) steps)

  -- Time is up, and the posted handler is run.
  unfoldable pub round : Timer → Outcome Timer
  round t = run_posted cancels (expire t)

  unfoldable pub rounds : ℕ → Timer → Outcome Timer
  unfolding round
  rounds zero t = ret t
  rounds (suc n) t = round t >>= rounds n

  -- A timer that repeats, between two calls.
  unfoldable pub repeating : ℕ → Timer
  repeating n = record {
    has_strand = false;
    is_set = true;
    is_once = false;
    is_repeat = true;
    waiting = calls_repeat ∷ [];
    posted = [];
    calls = n;
    alive = true;
  }

  rounds_from :
      (n k : ℕ) → ((i : ℕ) → cancels i ≡ false) → rounds n (repeating k) ≡ ret (repeating (k + n))
  unfolding rounds round expire post_waiting run_posted run_front run_waiter repeat_call
      call_handler arm repeating
  rounds_from zero k goes_on = ap (λ c. ret (repeating c)) (omega arith)
  rounds_from (suc n) k goes_on =
      rw (goes_on k) (rounds_from n (suc k) goes_on ∙ ap (λ c. ret (repeating c)) (omega arith))

  -- Without a strand key, and with a handler that does not cancel it, a repeating timer calls its
  -- handler once each time its time is up, and then waits again.
  pub pulse_repeat-rounds :
      (strand_count n : ℕ)
      → ((i : ℕ) → cancels i ≡ false)
      → (pulse_repeat strand_count 0 >>= rounds n) ≡ ret (repeating n)
  unfolding pulse_repeat repeat arm post_waiting new_timer repeating
  pulse_repeat-rounds strand_count n goes_on =
      rounds_from n 0 goes_on ∙ ap (λ c. ret (repeating c)) (omega arith)

  -- A repeating timer that is cancelled while it waits calls its handler once more, at once, and not
  -- again; one that is destroyed while it waits has its handler run on a timer that is gone.
  pub cancelled_calls :
      (n : ℕ)
      → (t : Timer) × (run_posted cancels (cancel (repeating n)) ≡ ret t)
        × (t.calls ≡ suc n)
        × (t.waiting ≡ [])
        × (t.posted ≡ [])
        × (run_posted cancels (destroy_timer (repeating n)) ≡ faults)
  unfolding run_posted run_front run_waiter repeat_call call_handler arm cancel post_waiting
      destroy_timer repeating
  cancelled_calls n = elim (Bool-cases (cancels n)) [
    | inl c ↦ rw (c) (_, refl, refl, refl, refl, refl)
    | inr c ↦ rw (c) (_, refl, refl, refl, refl, refl)
  ]
