-- ===== src/Net/Client/Tests.antt =====
-- A client that never connected, with a pulse.
use play.Common.{◌≡◌, refl, true, none, some}
use play.Common.Outcome.{ret, aborts, faults, debug, release}
use play.Net.Client.{Client, session_of, connect, close, reconnecting, handle_connect}
use play.Net.Client.Reconnect.{connect_fails}

abbrev idle : Client
idle = record { session = none; endpoint = 0; pulse = 5 }

connect_fails_test :
    (c' gone : Client) × (connect 100 true 9 idle ≡ (c', true))
    × (handle_connect debug true true c' ≡ aborts)
    × (handle_connect release true true c'
        ≡ ret
            (record c' { session = some (record { address = 100; is_open = true }) }, reconnecting))
    × (close c' ≡ ret gone)
    × (handle_connect debug true true gone ≡ aborts)
    × (handle_connect release true true gone ≡ faults)
connect_fails_test = connect_fails 100 9 true idle refl

closed_twice : close idle ≡ faults
unfolding close session_of
closed_twice = refl
