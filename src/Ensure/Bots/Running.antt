-- ===== src/Ensure/Bots/Running.antt =====
-- Bots from their start to their stop.
use play.Net.Timer.Firing.{TimerSteps, strand_calls}
use play.Common.{
  ℕ, zero, suc, ◌+◌, ◌≤◌, ◌<◌, ◌≡◌, refl, sym, ap, ap₂, subst, ◌∙◌, ◌⊎◌, inl, inr, Bool, true,
  false, some, List, [], ◌∷◌, ◌++◌, append-nil, append_assoc, arith, All, All-append,
}
use play.Common.Tests.{◌==◌, ==_iff, Bool-cases, some-injective}
use play.Common.Outcome.{ret, aborts, >>=-eq-ret, ret-injective}
use play.Net.Timer.{Timer, new_timer, repeat, cancel, get_strand, runner_repeat_at}
use play.Ensure.Acts.{ActEnsure, activate, deactivate}
use play.Ensure.Acts.Only.{deactivate_lem}
use play.Ensure.Bots.{
  Bot, new_flow, start_bot, flow_of, stop_bot, Ensure, new_bot, start_each, start_bots, stop_each,
  stop_ensure,
}

-- A bot that runs: its flow is active, and its timer is one that repeats on a strand.
pub record IsRunning (b : Bot) : Type 0 where
  pub flow : ActEnsure
  pub has_flow : b.flow ≡ some flow
  pub is_active : flow.active ≡ true
  pub has_timer : b.timer ≡ some (repeat (new_timer true))

-- Of what the flow and the timer are when the bot was stopped.
pub record IsStopped (b : Bot) : Type 0 where
  pub flow : ActEnsure
  pub timer : Timer
  pub has_flow : b.flow ≡ some flow
  pub is_inactive : flow.active ≡ false
  pub has_timer : b.timer ≡ some timer
  pub timer_off : timer.is_set ≡ false

cancel-unset : (t : Timer) → (cancel t).is_set ≡ false
unfolding cancel
cancel-unset t = elim (Bool-cases t.is_set) [ inl e ↦ rw (e) refl | inr e ↦ rw (e) refl ]

stop_bot-IsStopped :
    (b : Bot)
    → IsRunning b
    → (b' : Bot) × (stop_bot b ≡ ret b') × IsStopped b' × (b'.index ≡ b.index)
unfolding stop_bot flow_of
stop_bot-IsStopped b h = (
  record b { flow = some (deactivate h.flow); timer = some (cancel (repeat (new_timer true))) },
  rw (h.has_flow, h.has_timer) refl,
  record {
    flow = deactivate h.flow;
    timer = cancel (repeat (new_timer true));
    has_flow = refl;
    is_inactive = deactivate_lem h.flow;
    has_timer = refl;
    timer_off = cancel-unset (repeat (new_timer true));
  },
  refl,
)

start_bot-IsRunning :
    (strand_count : ℕ) (b : Bot)
    → 0 < strand_count
    → (b' : Bot) × (start_bot strand_count true b ≡ ret (b', true))
      × IsRunning b'
      × (b'.index ≡ b.index)
unfolding start_bot runner_repeat_at get_strand activate
start_bot-IsRunning strand_count b some_strands =
    let no_zero : (strand_count == 0) ≡ false = ground arith in
    let flow = activate (new_flow true) in
    (
      record b { flow = some flow; timer = some (repeat (new_timer true)) },
      rw (no_zero) refl,
      record { flow = flow; has_flow = refl; is_active = refl; has_timer = refl },
      refl,
    )

not_started :
    (strand_count : ℕ) (b : Bot)
    → start_bot strand_count false b ≡ ret (record b { flow = some (new_flow false) }, false)
unfolding start_bot activate
not_started strand_count b = refl

-- The indexes of bots.
abbrev pub indexes : List Bot → List ℕ
indexes [] = []
indexes (b ∷ bots) = b.index ∷ indexes bots

indexes-append : (bs cs : List Bot) → indexes (bs ++ cs) ≡ indexes bs ++ indexes cs
indexes-append [] cs = refl
indexes-append (b ∷ bs) cs = ap (◌∷◌ b.index) (indexes-append bs cs)

-- So many indexes from one on.
abbrev pub range : ℕ → ℕ → List ℕ
range index zero = []
range index (suc left) = index ∷ range (suc index) left

stop_each-IsStopped :
    (bots : List Bot)
    → All IsRunning bots
    → (stopped : List Bot) × (stop_each bots ≡ ret stopped)
      × All IsStopped stopped
      × (indexes stopped ≡ indexes bots)
unfolding stop_each
stop_each-IsStopped [] h = ([], refl, tt, refl)
stop_each-IsStopped (b ∷ bots) (h, hs) =
    let (b', one, down, index) = stop_bot-IsStopped b h in
    let (rest, all, downs, same) = stop_each-IsStopped bots hs in
    (b' ∷ rest, rw (one, all) refl, (down, downs), ap₂ ◌∷◌ index same)

stops_lem :
    (e : Ensure) (bots : List Bot)
    → e.stopped ≡ false
    → e.has_runner ≡ true
    → stop_each e.bots ≡ ret bots
    → stop_ensure e ≡ ret (record e { stopped = true; bots = bots })
unfolding stop_ensure
stops_lem e bots going has_runner all = rw (going, has_runner, all) refl

module _ (text : ℕ → List ℕ) (ids : ℕ → ℕ) (ready : ℕ → Bool) (strand_count : ℕ)
    (some_strands : 0 < strand_count) where
  -- All bots from an index on have started, behind those that were there.
  record AllStart (prefix : List ℕ) (index left : ℕ) (bots : List Bot) : Type 0 where
    started : List Bot
    returns : start_each text ids ready strand_count prefix index left bots ≡ ret started
    all_ready : (i : ℕ) → index ≤ i → i < index + left → ready i ≡ true
    running : All IsRunning started
    in_order : indexes started ≡ indexes bots ++ range index left

  -- The flow of one of them does not activate.
  OneFails : List ℕ → ℕ → ℕ → List Bot → Type 0
  OneFails prefix index left bots =
      (i : ℕ) × (index ≤ i)
      × (i < index + left)
      × (ready i ≡ false)
      × (start_each text ids ready strand_count prefix index left bots ≡ aborts)

  starts_next :
      (prefix : List ℕ) (index left : ℕ) (bots : List Bot)
      → ready index ≡ true
      → (b : Bot) × IsRunning b
        × (b.index ≡ index)
        × (start_each text ids ready strand_count prefix index (suc left) bots
            ≡ start_each text ids ready strand_count prefix (suc index) left (bots ++ (b ∷ [])))
  unfolding start_each
  starts_next prefix index left bots up =
      let (b, one, running, same) =
        start_bot-IsRunning strand_count (new_bot text ids ready strand_count prefix index)
          some_strands in
      (b, running, same, rw (up) (rw (one) refl))

  fails_here :
      (prefix : List ℕ) (index left : ℕ) (bots : List Bot)
      → ready index ≡ false
      → start_each text ids ready strand_count prefix index (suc left) bots ≡ aborts
  unfolding start_each
  fails_here prefix index left bots down =
      rw (down)
        (rw (not_started strand_count (new_bot text ids ready strand_count prefix index)) refl)

  from_next :
      (index left : ℕ)
      → ready index ≡ true
      → ((i : ℕ) → suc index ≤ i → i < suc index + left → ready i ≡ true)
      → (i : ℕ) → index ≤ i
      → i < index + suc left
      → ready i ≡ true
  from_next index left up later i from below = elim (Bool-cases (index == i)) [
    | inl here ↦ subst (λ k. ready k ≡ true) ((==_iff index i).0 here) up
    | inr apart ↦ later i (ground (arith, apart, from)) (omega (arith, below))
  ]

  start_each-cases :
      (prefix : List ℕ) (index left : ℕ) (bots : List Bot)
      → All IsRunning bots
      → AllStart prefix index left bots ⊎ OneFails prefix index left bots
  unfolding start_each OneFails
  start_each-cases prefix index zero bots h = inl (record {
    started = bots;
    returns = refl;
    all_ready = λ i from below. absurd (omega arith);
    running = h;
    in_order = sym (append-nil (indexes bots));
  })
  start_each-cases prefix index (suc left) bots h = elim (Bool-cases (ready index)) [
    | inr down ↦ inr (index, omega arith, omega arith, down, fails_here prefix index left bots down)
    | inl up ↦
        let (b, running, same, on) = starts_next prefix index left bots up in
        elim (start_each-cases prefix (suc index) left (bots ++ (b ∷ []))
          (All-append IsRunning bots (b ∷ []) h (running, tt))) [
            | inl r ↦ inl (record {
              started = r.started;
              returns = on ∙ r.returns;
              all_ready = from_next index left up r.all_ready;
              running = r.running;
              in_order =
                  r.in_order
                  ∙ ap (λ is. is ++ range (suc index) left)
                      (indexes-append bots (b ∷ []) ∙ ap (λ i. indexes bots ++ (i ∷ [])) same)
                  ∙ append_assoc (indexes bots) (index ∷ []) (range (suc index) left);
            })
            | inr (i, from, below, down, ends) ↦
                inr (i, omega (arith, from), omega (arith, below), down, on ∙ ends)
          ]
  ]

  -- On a runner with some strands, and where all bots that are there run: where the flows of all bots
  -- of the range activate, start_bots returns with those bots behind the ones that were there, in the
  -- order of their indexes, and the stop of an ensure that has a runner and was not stopped then
  -- returns, with the flow of each bot not active and its timer not set. Where one of the flows does
  -- not activate, start_bots ends the process.
  pub start_bots-stop :
      (e : Ensure)
      → All IsRunning e.bots
      → e.stopped ≡ false
      → e.has_runner ≡ true
      → ((f : Ensure) × (g : Ensure) × (start_bots text ids ready strand_count e ≡ ret f)
          × ((i : ℕ) → e.bot_start_index ≤ i → i < e.bot_start_index + e.bot_count → ready i ≡ true)
          × (indexes f.bots ≡ indexes e.bots ++ range e.bot_start_index e.bot_count)
          × (stop_ensure f ≡ ret g)
          × All IsStopped g.bots
          × (indexes g.bots ≡ indexes f.bots))
        ⊎ ((i : ℕ) × (e.bot_start_index ≤ i)
            × (i < e.bot_start_index + e.bot_count)
            × (ready i ≡ false)
            × (start_bots text ids ready strand_count e ≡ aborts))
  unfolding start_bots OneFails
  start_bots-stop e running_yet going has_runner =
      elim (start_each-cases e.bot_prefix e.bot_start_index e.bot_count e.bots running_yet) [
        | inr (i, from, below, down, ends) ↦ inr (i, from, below, down, rw (ends) refl)
        | inl r ↦
            let (stopped, all, downs, same) = stop_each-IsStopped r.started r.running in
            let f : Ensure = record e { bots = r.started } in
            inl (
              f,
              record f { stopped = true; bots = stopped },
              rw (r.returns) refl,
              r.all_ready,
              r.in_order,
              stops_lem f stopped going has_runner all,
              downs,
              same,
            )
      ]

on_strand :
    (strand_count key : ℕ) (r : ℕ × Timer)
    → runner_repeat_at strand_count key ≡ ret r
    → r.1 ≡ repeat (new_timer true)
unfolding runner_repeat_at
on_strand strand_count key r e =
    let (strand, _, e1) = >>=-eq-ret (get_strand strand_count key) _ e in
    ap (λ p. p.1) (sym (ret-injective e1))

-- The timer of a bot that was started updates its flow at most once.
pub start_bot-updates :
    (cancels : ℕ → Bool) (strand_count : ℕ) (ready : Bool) (b b' : Bot) (t t' : Timer)
    → start_bot strand_count ready b ≡ ret (b', true)
    → b'.timer ≡ some t
    → TimerSteps cancels t t'
    → t'.calls ≤ 1
unfolding start_bot activate
start_bot-updates cancels strand_count false b b' t t' e timer steps = cc
start_bot-updates cancels strand_count true b b' t t' e timer steps =
    let (r, made, e1) = >>=-eq-ret (runner_repeat_at strand_count b.id) _ e in
    let same = some-injective (ap (λ p. p.0.timer) (ret-injective e1) ∙ timer) in
    strand_calls cancels t'
      (subst (λ u. TimerSteps cancels u t') (sym same ∙ on_strand strand_count b.id r made) steps)
