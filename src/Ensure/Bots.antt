-- ===== src/Ensure/Bots.antt =====
-- play/ensure/bot.cpp, flow.cpp and ensure.cpp. Whether the flow of a bot activates, the id that a
-- bot draws, and the text of a number are arguments.
pub mod Running
pub mod Tests
use play.Common.{ℕ, zero, suc, Bool, true, false, Option, none, some, List, [], ◌∷◌, ◌++◌}
use play.Common.Tests.{ltb, if◌then◌else◌}
use play.Common.Lists.{length, get_elem?}
use play.Common.Outcome.{Outcome, ret, faults, ◌>>=◌, ◌>>◌, Build, play_check}
use play.Net.Timer.{Timer, cancel, runner_repeat_at}
use play.App.ActorContainer.{destroy_actor}
use play.Ensure.Acts.{ActEnsure, activate, deactivate}

-- `flow` and `timer` are null until the bot is started.
pub record Bot : Type 0 where
  pub id : ℕ
  pub name : List ℕ
  pub index : ℕ
  pub flow : Option ActEnsure
  pub timer : Option Timer

-- "flow"
abbrev flow_name : List ℕ
flow_name = 102 ∷ 108 ∷ 111 ∷ 119 ∷ []

abbrev pub new_flow : Bool → ActEnsure
new_flow ready = record { name = flow_name; active = false; active_count = 0; ready = ready }

-- `on_start`: the bot, and what it returns. The timer is on the strand of the bot's id.
unfoldable pub start_bot : ℕ → Bool → Bot → Outcome (Bot × Bool)
start_bot strand_count ready b =
    let flow = activate (new_flow ready) in
    if flow.active
    then runner_repeat_at strand_count b.id
      >>= (λ r. ret (record b { flow = some flow; timer = some r.1 }, true))
    else ret (record b { flow = some flow }, false)

abbrev cancelled : Option Timer → Option Timer
cancelled none = none
cancelled (some t) = some (cancel t)

-- A call through `flow_`.
unfoldable pub flow_of : Option ActEnsure → Outcome ActEnsure
flow_of none = faults
flow_of (some flow) = ret flow

-- `on_stop`, which `exit` of the flow calls too.
unfoldable pub stop_bot : Bot → Outcome Bot
unfolding flow_of
stop_bot b = do
  flow ← flow_of b.flow
  ret (record b { flow = some (deactivate flow); timer = cancelled b.timer })

pub record Ensure : Type 0 where
  pub has_runner : Bool
  pub stopped : Bool
  pub bot_count : ℕ
  pub bot_start_index : ℕ
  pub bot_prefix : List ℕ
  pub bots : List Bot

module _ (text : ℕ → List ℕ) (ids : ℕ → ℕ) (ready : ℕ → Bool) (strand_count : ℕ) where
  abbrev new_bot : List ℕ → ℕ → Bot
  new_bot prefix index = record {
    id = ids index;
    name = prefix ++ text index;
    index = index;
    flow = none;
    timer = none;
  }

  -- The loop of `start_bots`, with the rounds that are left. A bot that does not start is held by
  -- nothing else, and is destroyed at the end of its round.
  unfoldable pub start_each : List ℕ → ℕ → ℕ → List Bot → Outcome (List Bot)
  unfolding start_bot
  start_each prefix index zero bots = ret bots
  start_each prefix index (suc left) bots = do
    (b, rc) ← start_bot strand_count (ready index) (new_bot prefix index)
    if rc then ret tt else destroy_actor
    start_each prefix (suc index) left (if rc then bots ++ (b ∷ []) else bots)

  unfoldable pub start_bots : Ensure → Outcome Ensure
  unfolding start_each
  start_bots e = do
    bots ← start_each e.bot_prefix e.bot_start_index e.bot_count e.bots
    ret (record e { bots = bots })

unfoldable pub stop_each : List Bot → Outcome (List Bot)
unfolding stop_bot
stop_each [] = ret []
stop_each (b ∷ bots) = do b' ← stop_bot b; bots' ← stop_each bots; ret (b' ∷ bots')

unfoldable pub stop_ensure : Ensure → Outcome Ensure
unfolding stop_each
stop_ensure e =
    if e.stopped
    then ret e
    else if e.has_runner
    then stop_each e.bots >>= (λ bots. ret (record e { stopped = true; bots = bots }))
    else faults

unfoldable pub get_bot : Build → ℕ → Ensure → Outcome Bot
get_bot m index e = do
  play_check m (ltb index (length e.bots))
  elim (get_elem? e.bots index) [ none ↦ faults | some b ↦ ret b ]
