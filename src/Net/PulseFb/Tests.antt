-- ===== src/Net/PulseFb/Tests.antt =====
-- A call on a pulse with a session that takes every frame.
use play.Common.{ℕ, ◌≡◌, refl, Bool, true, false, List, [], ◌∷◌, ◌++◌}
use play.Common.Outcome.{ret, debug}
use play.Net.Pulse.Calls.{Pulse}
use play.Net.Pulse.Pending.{pending}
use play.Net.PulseFb.{call_fb}
use play.Net.PulseFb.Calling.{call_fb_lem}

abbrev as_bytes : ℕ → List ℕ
as_bytes n = n ∷ []

abbrev takes_all : ℕ → ℕ → List ℕ → Bool → Bool
takes_all se topic bytes encrypt = true

abbrev idle : Pulse
idle = record { session = 9; subscriptions = []; calls = []; call_pairs = [] }

call_fb_lem_test :
    (q : Pulse) × (call_fb as_bytes takes_all debug idle 20 21 5 77 false ≡ ret (q, []))
    × (pending q 20 ≡ pending idle 20 ++ (77 ∷ []))
call_fb_lem_test = call_fb_lem as_bytes takes_all debug idle 20 21 5 77 false refl
