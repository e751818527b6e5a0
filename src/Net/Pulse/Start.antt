-- ===== src/Net/Pulse/Start.antt =====
-- How a pulse is set up and started: pulse.ipp. A pulse is named by its address, as in Tree. Whether
-- a server starts on a port is an argument, and so is what the `connect` of a client comes to, which
-- throws where asio takes no address from the host.
pub mod Addresses
use play.Common.{ℕ, zero, suc, Bool, true, false, not, none, some, List}
use play.Common.Tests.{◌==◌, if◌then◌else◌}
use play.Common.Lists.{length}
use play.Common.Outcome.{Outcome, ret, faults, ◌>>=◌, ◌>>◌, Build, play_check}
use play.Common.Map.{find, nat_key}
use play.Net.Address.{parse}
use play.Net.Pulse.Tree.{Mode, unset, server, client, child, independent, is_unset}

-- What the setters write; `runner` and `session` are addresses, 0 for null.
pub record Setup : Type 0 where
  pub mode : Mode
  pub runner : ℕ
  pub port : ℕ
  pub addr : List ℕ
  pub parent : ℕ
  pub strand_key : ℕ
  pub session : ℕ
  pub final : Bool

unfoldable pub as_server : Build → ℕ → ℕ → Setup → Outcome Setup
as_server m runner port p = do
  play_check m (not (runner == 0))
  ret (record p { runner = runner; mode = server; port = port })

unfoldable pub as_client : Build → ℕ → List ℕ → Setup → Outcome Setup
as_client m runner addr p = do
  play_check m (not (runner == 0))
  ret (record p { runner = runner; mode = client; addr = addr })

unfoldable pub as_independent : Build → ℕ → Setup → Outcome Setup
as_independent m runner p = do
  play_check m (not (runner == 0))
  ret (record p { runner = runner; mode = independent })

unfoldable pub with_strand : ℕ → Setup → Setup
with_strand key p = record p { strand_key = key }

unfoldable pub with_session : ℕ → Setup → Setup
with_session session p = record p { session = session }

unfoldable pub mark_final : Setup → Setup
mark_final p = record p { final = true }

-- The loop of `inherit_session`: the session of the nearest pulse above that has one, or null.
unfoldable pub session_above : ℕ → List (ℕ × Setup) → ℕ → ℕ
session_above zero pulses p = 0
session_above (suc fuel) pulses p = elim (find p pulses) [
  | none ↦ 0
  | some up ↦
      let further = session_above fuel pulses up.parent in
      if up.session == 0 then further else up.session
]

-- It has no return statement, so its end is undefined.
unfoldable pub inherit_session : Build → List (ℕ × Setup) → Setup → Outcome Setup
unfolding session_above
inherit_session m pulses p = do
  play_check m (p.session == 0)
  play_check m (not (session_above (length pulses) pulses p.parent == 0))
  faults

-- The recursion ends at a pulse with a runner; without assertions it calls through a null parent.
unfoldable pub get_runner : ℕ → Build → List (ℕ × Setup) → Setup → Outcome ℕ
get_runner zero m pulses p = faults
get_runner (suc fuel) m pulses p = if not (p.runner == 0) then ret p.runner else do
  play_check m (not (p.parent == 0))
  elim (find p.parent pulses) [ none ↦ faults | some up ↦ get_runner fuel m pulses up ]

module _ (atoi : List ℕ → ℕ) (server_starts : ℕ → Bool) (connects : List ℕ → ℕ → Outcome Bool) where
  unfoldable pub start_mode : Setup → Mode → Outcome Bool
  start_mode p unset = ret false
  start_mode p server = ret (if p.runner == 0 then false else server_starts p.port)
  start_mode p client =
      if p.runner == 0 then ret false else (let to = parse atoi p.addr in connects to.0 to.1)
  start_mode p child = ret (not (p.parent == 0))
  start_mode p independent = ret true

  unfoldable pub start_pulse : Build → List (ℕ × Setup) → Setup → Outcome Bool
  unfolding get_runner start_mode
  start_pulse m pulses p = do
    play_check m (not (is_unset p.mode))
    runner ← get_runner (suc (length pulses)) m pulses p
    play_check m (not (runner == 0))
    start_mode p p.mode
