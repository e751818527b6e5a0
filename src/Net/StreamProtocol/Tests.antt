-- ===== src/Net/StreamProtocol/Tests.antt =====
-- Two chunks through an accepted session.
use play.Common.{◌≡◌, refl, true, false, [], ◌∷◌, arith}
use play.Common.Outcome.{ret, debug, play_check}
use play.Net.Session.Receive.{feed}
use play.Net.StreamProtocol.{
  StreamProtocol, init, check_unused, accept, is_established, encode, decode,
}
use play.Net.StreamProtocol.Bypass.{feed-whole_chunks}

abbrev server : StreamProtocol
server = record { accepted = true; connected = false; closed = false }

accept-init : accept debug init ≡ ret (server, [])
unfolding accept check_unused play_check
accept-init = refl

encode_bytes : encode debug server (5 ∷ 6 ∷ []) (4 ∷ []) ≡ ret (2, 4 ∷ 5 ∷ 6 ∷ [])
unfolding encode is_established play_check
encode_bytes = refl

feed-whole_chunks_test :
    feed debug decode server [] [] ((5 ∷ 6 ∷ []) ∷ (7 ∷ []) ∷ [])
    ≡ ret (record {
      state = server;
      frames = (0, 5 ∷ 6 ∷ []) ∷ (0, 7 ∷ []) ∷ [];
      rest = [];
      failed = false;
    })
feed-whole_chunks_test =
    feed-whole_chunks debug server ((5 ∷ 6 ∷ []) ∷ (7 ∷ []) ∷ []) []
      (omega arith, (omega arith, tt))
