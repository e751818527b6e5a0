-- ===== src/Net/Client.antt =====
-- play/net/client.hpp and client.ipp. A session is its address and whether its socket is open; what
-- asio's calls come to is an argument.
pub mod Reconnect
pub mod Tests
use play.Common.{ℕ, Bool, true, false, not, Option, none, some, List, [], ◌∷◌, ◌++◌}
use play.Common.Tests.{◌==◌, if◌then◌else◌}
use play.Common.Outcome.{Outcome, ret, faults, ◌>>=◌, ◌>>◌, Build, play_check}
use play.Common.Map.{is_some}

pub record Link : Type 0 where
  pub address : ℕ
  pub is_open : Bool

-- `pulse` is the listener's address, 0 where none is bound.
pub record Client : Type 0 where
  pub session : Option Link
  pub endpoint : ℕ
  pub pulse : ℕ

pub data Notice : Type 0 where
  handle_established handle_closed pulse_established pulse_closed : ℕ → Notice
  handle_receive pulse_receive : ℕ → ℕ → List ℕ → Notice

-- A call through `session_`.
unfoldable pub session_of : Client → Outcome Link
session_of c = elim c.session [ none ↦ faults | some se ↦ ret se ]

abbrev pub is_connected : Option Link → Bool
is_connected none = false
is_connected (some se) = se.is_open

-- The new session has the given address, and `opened` is what its `is_open` says after
-- `async_connect`. The second component is the result, and whether a connect was issued.
unfoldable pub connect : ℕ → Bool → ℕ → Client → Client × Bool
connect address opened endpoint c = if is_connected c.session then (c, false) else (
  record c { session = some (record { address = address; is_open = opened }); endpoint = endpoint },
  true,
)

unfoldable pub close : Client → Outcome Client
close c = do se ← session_of c; if se.is_open then ret (record c { session = none }) else ret c

-- What `reconnect` returns: the session's `is_open` after `async_connect` of its socket.
unfoldable pub reconnect : Build → Bool → Client → Outcome Client
reconnect m opened c = do
  play_check m (is_some c.session)
  se ← session_of c
  play_check m (not se.is_open)
  ret (record c { session = some (record se { is_open = opened }) })

-- Whether the session was started, or the connect was issued again.
pub data Handled : Type 0 where
  started reconnecting : Handled

unfoldable pub handle_connect : Build → Bool → Bool → Client → Outcome (Client × Handled)
handle_connect m failed opened c =
    if failed
    then reconnect m opened c >>= (λ c'. ret (c', reconnecting))
    else session_of c >>= (λ se. ret (c, started))

unfoldable pub bind_pulse : Build → ℕ → Client → Outcome Client
bind_pulse m listener c = do play_check m (not (listener == 0)); ret (record c { pulse = listener })

abbrev pub if_bound : Client → Notice → List Notice
if_bound c n = if c.pulse == 0 then [] else n ∷ []

unfoldable pub on_established : Link → Client → List Notice
on_established se c = handle_established se.address ∷ if_bound c (pulse_established se.address)

unfoldable pub on_closed : Link → Client → Client × List Notice
on_closed se c =
    (record c { session = none }, handle_closed se.address ∷ if_bound c (pulse_closed se.address))

unfoldable pub on_receive : Link → ℕ → List ℕ → Client → List Notice
on_receive se pic data' c =
    if_bound c (pulse_receive se.address pic data') ++ (handle_receive se.address pic data' ∷ [])
