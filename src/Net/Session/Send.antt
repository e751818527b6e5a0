-- ===== src/Net/Session/Send.antt =====
-- The sending half of play/net/session.ipp: one buffer collects while the other is on its way. The
-- socket is outside: a call of `async_send` is returned as the bytes that it is given.
use play.Common.{
  ℕ, Bool, true, false, not, Option, none, some, List, [], ◌++◌, if◌then◌else◌, is_empty, drop,
}
use play.Common.Outcome.{Outcome, ret, ◌>>◌, Build, play_check}

-- `acc_buf_index_` is 0 or 1, here false or true.
pub record Sender : Type 0 where
  pub sending : Bool
  pub acc_buf_index : Bool
  pub first : List ℕ
  pub second : List ℕ

unfoldable pub init : Sender
init = record { sending = false; acc_buf_index = false; first = []; second = [] }

-- `send_bufs_[i]`
unfoldable pub send_buf : Sender → Bool → List ℕ
send_buf s false = s.first
send_buf s true = s.second

unfoldable pub set_send_buf : Sender → Bool → List ℕ → Sender
set_send_buf s false bytes = record s { first = bytes }
set_send_buf s true bytes = record s { second = bytes }

unfoldable pub start_send : Build → Sender → Outcome (Sender × Option (List ℕ))
unfolding send_buf
start_send m s = do
  play_check m (not s.sending)
  let buf = send_buf s s.acc_buf_index
  ret (
      if is_empty buf
      then (s, none)
      else (record s { acc_buf_index = not s.acc_buf_index; sending = true }, some buf))

-- `send(data, len)` on a socket that is open or not.
unfoldable pub send : Build → Bool → Sender → List ℕ → Outcome (Sender × Option (List ℕ))
unfolding send_buf set_send_buf start_send
send m is_open s bytes =
    let i = s.acc_buf_index in
    let s' = set_send_buf s i (send_buf s i ++ bytes) in
    let started = start_send m s' in
    if not is_open then ret (s, none) else if not s'.sending then started else ret (s', none)

-- `handle_send` with no error: the socket took `len` bytes.
unfoldable pub handle_send : Build → Sender → ℕ → Outcome (Sender × Option (List ℕ))
unfolding send_buf set_send_buf start_send
handle_send m s len = do
  play_check m s.sending
  let index = not s.acc_buf_index
  let s' = set_send_buf s index (drop len (send_buf s index))
  start_send m (record s' { sending = false })
