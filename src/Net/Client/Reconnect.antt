-- ===== src/Net/Client/Reconnect.antt =====
-- What a connect that fails comes to.
use play.Common.{ℕ, ◌≡◌, refl, Bool, true, false, none, some}
use play.Common.Outcome.{ret, aborts, faults, debug, release, play_check}
use play.Net.Client.{
  Client, session_of, is_connected, connect, close, reconnect, reconnecting, handle_connect,
}

-- After `connect` of a client without an open session, where `async_connect` opened the socket: if
-- the connect fails, a build with assertions ends and one without issues it again; if the client is
-- closed first, a build with assertions ends and one without calls through the null pointer.
pub connect_fails :
    (address endpoint : ℕ) (opened : Bool) (c : Client)
    → is_connected c.session ≡ false
    → (c' gone : Client) × (connect address true endpoint c ≡ (c', true))
      × (handle_connect debug true opened c' ≡ aborts)
      × (handle_connect release true opened c'
          ≡ ret (
            record c' { session = some (record { address = address; is_open = opened }) },
            reconnecting,
          ))
      × (close c' ≡ ret gone)
      × (handle_connect debug true opened gone ≡ aborts)
      × (handle_connect release true opened gone ≡ faults)
unfolding connect handle_connect reconnect close session_of play_check
connect_fails address endpoint opened c idle = (
  record c { session = some (record { address = address; is_open = true }); endpoint = endpoint },
  record c { session = none; endpoint = endpoint },
  rw (idle) refl,
  refl,
  refl,
  refl,
  refl,
  refl,
)
