-- ===== src/Net/Timer/Tests.antt =====
-- Repeating timers of a pulse, of a runner with 64 strands.
use play.Common.{ℕ, ◌≤◌, ◌≡◌, refl, Bool, true, false, [], ◌∷◌, arith}
use play.Common.Outcome.{ret, faults, ◌>>=◌, release, play_check}
use play.Net.Timer.{
  calls_handler, Timer, new_timer, post_waiting, once, cancel, destroy_timer, expire, call_handler,
  run_posted, pulse_repeat,
}
use play.Net.Timer.Firing.{
  expires, runs, never_set, steps_on, sets_once, strand_repeats_once, rounds, repeating,
  pulse_repeat-rounds, cancelled_calls,
}

abbrev goes_on : ℕ → Bool
goes_on n = false

pulse_repeat-rounds_example : (pulse_repeat 64 0 >>= rounds goes_on 5) ≡ ret (repeating goes_on 5)
pulse_repeat-rounds_example = pulse_repeat-rounds goes_on 64 5 (λ i. refl)

cancelled_calls_example :
    (t : Timer) × (run_posted goes_on (cancel (repeating goes_on 5)) ≡ ret t)
    × (t.calls ≡ 6)
    × (t.waiting ≡ [])
    × (t.posted ≡ [])
    × (run_posted goes_on (destroy_timer (repeating goes_on 5)) ≡ faults)
cancelled_calls_example = cancelled_calls goes_on 5

abbrev on_strand : Timer
on_strand = record (new_timer true) {
  is_set = true;
  is_repeat = true;
  waiting = calls_handler ∷ [];
}

abbrev after_call : Timer
after_call = record on_strand { waiting = []; calls = 1 }

-- After that call the handler sets it once more, and is called again.
abbrev called_twice : Timer
called_twice = record after_call { is_once = true; is_repeat = false; calls = 2 }

abbrev set_again : Timer
set_again = record called_twice { waiting = calls_handler ∷ []; calls = 1 }

strand_repeats_once_example : called_twice.calls ≤ 2
unfolding pulse_repeat new_timer post_waiting run_posted expire call_handler once play_check
strand_repeats_once_example =
    strand_repeats_once goes_on release 64 7 1 on_strand called_twice (omega arith) (omega arith)
      made
      (steps_on _ _ _ _
        (steps_on _ _ _ _
          (sets_once _ _ _ _
            (steps_on _ _ _ _ (steps_on _ _ _ _ (never_set on_strand) (expires on_strand))
              (runs (expire on_strand) after_call ran))
            again)
          (expires set_again))
        (runs (expire set_again) called_twice ran_again))
  where
    made : pulse_repeat 64 7 ≡ ret on_strand
    made = refl

    ran : run_posted goes_on (expire on_strand) ≡ ret after_call
    ran = refl

    again : once release after_call ≡ ret set_again
    again = refl

    ran_again : run_posted goes_on (expire set_again) ≡ ret called_twice
    ran_again = refl
