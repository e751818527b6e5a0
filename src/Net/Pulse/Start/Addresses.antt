-- ===== src/Net/Pulse/Start/Addresses.antt =====
-- Where the client of a pulse connects to.
use play.Common.{ℕ, ◌%◌, ◌≡◌, refl, Bool, false, List, [], ◌∷◌}
use play.Common.Tests.{◌==◌}
use play.Common.Outcome.{Outcome, throws, ◌>>=◌, Build, play_check-true}
use play.Base.StringUtil.Tokens.{IsToken, join}
use play.Net.Address.{colon, parse-join}
use play.Net.Pulse.Start.{Setup, as_client, get_runner, start_mode, start_pulse}

module _ (atoi : List ℕ → ℕ) (server_starts : ℕ → Bool) (connects : List ℕ → ℕ → Outcome Bool) where
  -- A pulse that is set up as a client with a runner, and the text of a host and a port that are not
  -- empty and hold no colon, starts as the connect to that host and to that port modulo 2 ^ 16 does.
  -- With the text of the host alone the start throws, where asio takes no address from the empty
  -- host.
  pub as_client-start_pulse :
      (m : Build) (pulses : List (ℕ × Setup)) (runner : ℕ) (host port : List ℕ) (p : Setup)
      → ((n : ℕ) → connects [] n ≡ throws)
      → (runner == 0) ≡ false
      → IsToken colon host
      → IsToken colon port
      → ((as_client m runner (join colon (host ∷ port ∷ [])) p
            >>= start_pulse atoi server_starts connects m pulses)
          ≡ connects host (atoi port % 65536))
        × ((as_client m runner (join colon (host ∷ [])) p
              >>= start_pulse atoi server_starts connects m pulses)
            ≡ throws)
  unfolding as_client start_pulse get_runner start_mode
  as_client-start_pulse m pulses runner host port p no_address live is_host is_port =
      let (full, alone) = parse-join atoi host port is_host is_port in
      (
        rw (live, play_check-true m, full)
            (rw (live, play_check-true m) (rw (live, play_check-true m) refl)),
        rw (live, play_check-true m, alone)
            (rw (live, play_check-true m) (rw (live, play_check-true m) (no_address 0))),
      )
