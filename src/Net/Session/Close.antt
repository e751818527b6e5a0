-- ===== src/Net/Session/Close.antt =====
-- How a session of play/net/session.ipp ends: `close`, and `handle_close`, which `handle_recv` and
-- `handle_send` call on an error. The calls of `on_closed` are counted.
use play.Common.{ℕ, ◌+◌, ◌≡◌, refl, Bool, true, false, List, [], ◌∷◌, if◌then◌else◌}
use play.Net.PlainProtocol.{PlainProtocol, close as close_protocol}

pub record Life : Type 0 where
  pub is_open : Bool
  pub protocol : PlainProtocol
  pub on_closed : ℕ

-- The socket is closed, and the operations on it end with an error.
close_socket : Life → Life
close_socket s = if s.is_open then record s { is_open = false } else s

handle_close : Life → Life
unfolding close_socket
handle_close s =
    let s' = close_socket s in
    if s.is_open
    then record s' { protocol = close_protocol s'.protocol; on_closed = s'.on_closed + 1 }
    else s

-- A call of `close()`, or an operation that ends with an error.
pub data Ending : Type 0 where
  closes fails : Ending

pub ends : Life → List Ending → Life
ends s [] = s
ends s (closes ∷ es) = ends (close_socket s) es
ends s (fails ∷ es) = ends (handle_close s) es

ends_shut :
    (p : PlainProtocol) (n : ℕ) (es : List Ending)
    → let s : Life = record { is_open = false; protocol = p; on_closed = n } in ends s es ≡ s
unfolding ends handle_close close_socket
ends_shut p n [] = refl
ends_shut p n (closes ∷ es) = ends_shut p n es
ends_shut p n (fails ∷ es) = ends_shut p n es

-- Whatever happens to an open session, one thing after the other: if an operation fails first, `on_closed` is called once and
-- the protocol is closed; if `close()` comes first, `on_closed` is never called, whatever fails
-- after it, and the protocol is not closed.
pub ends-open :
    (p : PlainProtocol) (n : ℕ) (es : List Ending)
    → let s : Life = record { is_open = true; protocol = p; on_closed = n } in
      (ends s (fails ∷ es)
        ≡ record { is_open = false; protocol = close_protocol p; on_closed = n + 1 })
      × (ends s (closes ∷ es) ≡ record { is_open = false; protocol = p; on_closed = n })
unfolding ends handle_close close_socket
ends-open p n es = (ends_shut (close_protocol p) (n + 1) es, ends_shut p n es)
