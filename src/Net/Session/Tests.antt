-- ===== src/Net/Session/Tests.antt =====
-- Runs of both halves of a session.
use play.Common.{ℕ, ◌≡◌, refl, ◌⊎◌, inr, true, false, List, [], ◌∷◌, ◌++◌, arith}
use play.Common.Lists.{concat}
use play.Common.Outcome.{ret, aborts, ◌>>=◌, debug, play_check}
use play.Net.PlainProtocol.{PlainProtocol, is_established, close as close_protocol}
use play.Net.Session.Close.{closes, fails, ends, ends-open}
use play.Net.PlainProtocol.RoundTrip.{wire}
use play.Net.Session.SendFrame.{refused, send_frame, plain_encode, send_frame-send}
use play.Net.PlainProtocol.Stream.{decode_step, HasCodec, decode_step-Streams}
use play.Net.Session.Receive.{Received, recv_frames, feed}
use play.Net.Session.Chunks.{Waits, Taken, Empty, recv_frames-Waits, feed-concat}
use play.Net.Session.Send.{init, send_buf, set_send_buf, start_send, send, handle_send}
use play.Net.Session.SendOrder.{
  Link, writes, completes, waiting, act, link, Run, stop, step, start, Run-order, Run-idle, Run-act,
  partial_overtaken,
}

abbrev server : PlainProtocol
server = record { accepted = true; connected = false; closed = false; codec = true }

-- A frame in two chunks.
abbrev front : List ℕ
front = 3 ∷ 0 ∷ 2 ∷ 0 ∷ []

abbrev back : List ℕ
back = 0 ∷ 0 ∷ 10 ∷ 11 ∷ []

feed-concat_example :
    feed debug (decode_step debug 2) server [] [] (front ∷ back ∷ [])
    ≡ recv_frames debug (decode_step debug 2) server ([] ++ concat (front ∷ back ∷ [])) []
feed-concat_example =
    feed-concat debug _ (decode_step debug 2) (decode_step-Streams debug 2) server [] [] front
      (back ∷ []) refl

-- The first two bytes are on their way.
abbrev sent_one : Link
sent_one = link true true (1 ∷ 2 ∷ []) [] [] (1 ∷ 2 ∷ [])

server_established : is_established server ≡ true
unfolding is_established
server_established = refl

send_frame-send_test :
    send_frame debug (plain_encode debug 2 server) true sent_one.sender 3 (10 ∷ 11 ∷ []) ≡ (
      send debug true sent_one.sender (wire 2 3 (10 ∷ 11 ∷ [])) >>= λ r.
      ret (record { sender = r.0; issued = r.1; accepted = true; closes = false }))
send_frame-send_test =
    send_frame-send debug 2 server sent_one.sender 3 (10 ∷ 11 ∷ []) server_established (omega arith)
      (omega arith) (inr (omega arith))

-- A closed session refuses.
send_closed :
    send_frame debug (plain_encode debug 2 server) false sent_one.sender 3 (10 ∷ [])
    ≡ ret (refused sent_one.sender)
unfolding send_frame
send_closed = refl

-- Two sends, the second while the first is on its way, and both completions.
abbrev sent_two : Link
sent_two = link true true (1 ∷ 2 ∷ []) (3 ∷ []) [] (1 ∷ 2 ∷ 3 ∷ [])

abbrev taken_one : Link
taken_one = link true false [] (3 ∷ []) (1 ∷ 2 ∷ []) (1 ∷ 2 ∷ 3 ∷ [])

abbrev taken_two : Link
taken_two = link false false [] [] (1 ∷ 2 ∷ 3 ∷ []) (1 ∷ 2 ∷ 3 ∷ [])

taken_two-Run : Run debug start taken_two
unfolding start init act send handle_send start_send send_buf set_send_buf play_check
taken_two-Run = step sent_one (writes (1 ∷ 2 ∷ [])) tt refl (
    step sent_two (writes (3 ∷ [])) tt refl (
      step taken_one (completes 2) (refl, refl) refl
        (step taken_two (completes 1) (refl, refl) refl (stop taken_two))))

Run-order_example :
    taken_two.taken ++ (taken_two.issued ++ waiting taken_two.sender) ≡ taken_two.written
Run-order_example = Run-order debug taken_two taken_two-Run

Run-idle_test : taken_two.taken ≡ taken_two.written
Run-idle_test = Run-idle debug taken_two taken_two-Run refl

Run-act_test : (k : Link) × (act debug taken_two (writes (9 ∷ [])) ≡ ret k)
Run-act_test = Run-act debug taken_two (writes (9 ∷ [])) taken_two-Run tt

partial_overtaken_example :
    (act debug (link true false (4 ∷ []) (1 ∷ 2 ∷ 3 ∷ []) [] (1 ∷ 2 ∷ 3 ∷ 4 ∷ [])) (completes 1)
      >>= λ k. act debug k (completes 1))
    ≡ ret (link true false [] (2 ∷ 3 ∷ []) (1 ∷ 4 ∷ []) (1 ∷ 2 ∷ 3 ∷ 4 ∷ []))
partial_overtaken_example =
    partial_overtaken debug false 2 4 (1 ∷ []) (3 ∷ []) [] [] (1 ∷ 2 ∷ 3 ∷ 4 ∷ [])

ends-open_test :
    (ends (record { is_open = true; protocol = server; on_closed = 0 }) (fails ∷ closes ∷ [])
      ≡ record { is_open = false; protocol = close_protocol server; on_closed = 1 })
    × (ends (record { is_open = true; protocol = server; on_closed = 0 }) (closes ∷ closes ∷ [])
        ≡ record { is_open = false; protocol = server; on_closed = 0 })
ends-open_test = ends-open server 0 (closes ∷ [])

recv_frames-Waits_example :
    ((r : Received PlainProtocol) × (recv_frames debug (decode_step debug 2) server front []
        ≡ ret r)
      × (r.failed ≡ false)
      × HasCodec r.state
      × Taken debug HasCodec
          (decode_step debug 2)
          (decode_step-Streams debug 2)
          server
          front
          r.state
          r.rest
      × Waits debug HasCodec (decode_step debug 2) (decode_step-Streams debug 2) r.state r.rest)
    ⊎ ((recv_frames debug (decode_step debug 2) server front [] ≡ aborts)
        × ((t : PlainProtocol) × (rest : List ℕ) × Taken debug HasCodec
              (decode_step debug 2)
              (decode_step-Streams debug 2)
              server
              front
              t
              rest
            × Empty debug HasCodec (decode_step debug 2) (decode_step-Streams debug 2) t rest))
recv_frames-Waits_example =
    recv_frames-Waits debug _ (decode_step debug 2) (decode_step-Streams debug 2) server front []
      refl
