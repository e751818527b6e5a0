-- ===== src/App/Tests.antt =====
-- Broadcasts over three sessions.
use play.Common.{ℕ, ◌≡◌, refl, Bool, false, not, [], ◌∷◌}
use play.Common.Tests.{◌==◌}
use play.Common.Outcome.{Outcome, ret}
use play.App.SessionContainer.{SessionContainer, send_all}
use play.App.SessionContainer.Broadcast.{send_all_stops}

abbrev fronts : SessionContainer
fronts = record { pulse = 1; sessions = (10, 10) ∷ (20, 20) ∷ (30, 30) ∷ [] }

abbrev not_twenty : ℕ → Outcome Bool
not_twenty se = ret (not (se == 20))

send_all_stops_example : send_all not_twenty fronts ≡ ret (false, 10 ∷ 20 ∷ [])
send_all_stops_example =
    send_all_stops not_twenty fronts ((10, 10) ∷ []) ((30, 30) ∷ []) 20 20 refl (refl, tt) refl
