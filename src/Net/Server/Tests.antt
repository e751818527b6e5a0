-- ===== src/Net/Server/Tests.antt =====
-- A server that accepts two sessions and closes both.
use play.Common.{◌≡◌, refl, true, false, none, some, [], ◌∷◌, arith}
use play.Net.Server.{
  init, handle_receive, pulse_receive, start, get_session, on_receive, accepts, closes, run,
}
use play.Net.Server.Lost.{get_session-run}

get_session-run_example :
    (get_session 12
        (run (accepts 100 11 ∷ accepts 200 12 ∷ closes 200 12 ∷ closes 100 11 ∷ []) init)
      ≡ none)
    × (get_session 0
          (run (accepts 100 11 ∷ accepts 200 12 ∷ closes 200 12 ∷ closes 100 11 ∷ []) init)
        ≡ some 100)
get_session-run_example =
    get_session-run 100 11 12 (accepts 200 12 ∷ closes 200 12 ∷ closes 100 11 ∷ [])
      (omega arith, (omega arith, (omega arith, tt))) (omega arith)

not_started : start true false init ≡ (record init { listening = true }, false)
unfolding start
not_started = refl

pulse_told :
    on_receive (record { address = 100; handle = 11 }) 3 (7 ∷ []) (record init { pulse = 5 })
    ≡ pulse_receive 100 3 (7 ∷ []) ∷ handle_receive 100 3 (7 ∷ []) ∷ []
unfolding on_receive
pulse_told = refl
