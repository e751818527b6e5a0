-- ===== src/Ensure/Bots/Tests.antt =====
-- Three bots, of which the second one's flow does not activate.
use play.Common.{
  ℕ, ◌+◌, ◌≤◌, ◌<◌, ◌≡◌, refl, ◌⊎◌, Bool, true, false, not, none, some, List, [], ◌∷◌, arith,
}
use play.Common.Tests.{◌==◌}
use play.Common.Lists.{All}
use play.Common.Outcome.{ret, aborts}
use play.Net.Timer.{calls_handler, Timer, new_timer, post_waiting, expire, runner_repeat_at}
use play.Net.Timer.Firing.{expires, armed, and_step}
use play.Ensure.Acts.{activate}
use play.Ensure.Bots.{Bot, new_flow, start_bot, Ensure, start_bots, stop_ensure}
use play.Ensure.Bots.Running.{IsStopped, indexes, start_bots-stop, start_bot-updates}

abbrev text : ℕ → List ℕ
text n = (48 + n) ∷ []

abbrev ids : ℕ → ℕ
ids n = 1000 + n

abbrev not_two : ℕ → Bool
not_two n = not (n == 2)

abbrev three : Ensure
three = record {
  has_runner = true;
  stopped = false;
  bot_count = 3;
  bot_start_index = 1;
  bot_prefix = 98 ∷ [];
  bots = [];
}

start_bots-stop_example :
    ((f : Ensure) × (g : Ensure) × (start_bots text ids not_two 64 three ≡ ret f)
      × ((i : ℕ) → 1 ≤ i → i < 1 + 3 → not_two i ≡ true)
      × (indexes f.bots ≡ 1 ∷ 2 ∷ 3 ∷ [])
      × (stop_ensure f ≡ ret g)
      × All IsStopped g.bots
      × (indexes g.bots ≡ indexes f.bots))
    ⊎ ((i : ℕ) × (1 ≤ i)
        × (i < 1 + 3)
        × (not_two i ≡ false)
        × (start_bots text ids not_two 64 three ≡ aborts))
start_bots-stop_example = start_bots-stop text ids not_two 64 (omega arith) three tt refl refl

abbrev one : Bot
one = record { id = 7; name = 98 ∷ []; index = 1; flow = none; timer = none }

abbrev on_strand : Timer
on_strand = record (new_timer true) {
  is_set = true;
  is_repeat = true;
  waiting = calls_handler ∷ [];
}

abbrev goes_on : ℕ → Bool
goes_on n = false

start_bot-updates_example : (expire on_strand).calls ≤ 1
unfolding start_bot activate runner_repeat_at new_timer post_waiting
start_bot-updates_example =
    start_bot-updates goes_on 64 true one
      (record one { flow = some (activate (new_flow true)); timer = some on_strand }) on_strand
      (expire on_strand) started refl (and_step _ _ _ (armed on_strand) (expires on_strand))
  where
    started :
        start_bot 64 true one
        ≡ ret (record one { flow = some (activate (new_flow true)); timer = some on_strand }, true)
    started = refl
