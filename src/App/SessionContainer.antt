-- ===== src/App/SessionContainer.antt =====
-- play/app/session_container.hpp. A session is its address; what `send` of a session comes to is an
-- argument.
pub mod Broadcast
use play.Common.{ℕ, Bool, true, false, not, List, [], ◌∷◌}
use play.Common.Tests.{◌==◌}
use play.Common.Outcome.{Outcome, ret, ◌>>=◌, ◌>>◌, Build, play_check}
use play.Common.Map.{is_some, find, insert, erase, nat_key, bytes_key}

-- `pulse` is the address of the bound pulse, 0 where there is none.
pub record SessionContainer : Type 0 where
  pub pulse : ℕ
  pub sessions : List (ℕ × ℕ)

unfoldable pub bind : Build → ℕ → SessionContainer → Outcome SessionContainer
bind m pulse c = do play_check m (not (pulse == 0)); ret (record c { pulse = pulse })

unfoldable pub add_session : ℕ → SessionContainer → Bool × SessionContainer
add_session se c =
    (not (is_some (find se c.sessions)), record c { sessions = insert se se c.sessions })

unfoldable pub del_session : ℕ → SessionContainer → SessionContainer
del_session se c = record c { sessions = erase se c.sessions }

module _ (sends : ℕ → Outcome Bool) where
  -- The loop of `send`, with the sessions whose own `send` is called: `&&` calls none once one fails.
  unfoldable pub send_each : Bool → List (ℕ × ℕ) → Outcome (Bool × List ℕ)
  send_each result [] = ret (result, [])
  send_each true ((key, se) ∷ rest) = do
    sent ← sends se
    after ← send_each sent rest
    ret (after.0, se ∷ after.1)
  send_each false ((key, se) ∷ rest) = send_each false rest

  unfoldable pub send_all : SessionContainer → Outcome (Bool × List ℕ)
  send_all c = send_each true c.sessions
