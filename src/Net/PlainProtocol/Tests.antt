-- ===== src/Net/PlainProtocol/Tests.antt =====
-- Two frames on their way, with topics of two bytes.
use play.Common.{ℕ, ◌≡◌, refl, ap, ◌∙◌, inr, true, false, List, [], ◌∷◌, ◌++◌, append-nil, arith}
use play.Common.Lists.{length, take, drop, All, concat, take-append-drop}
use play.Common.Outcome.{ret, aborts, debug, play_check}
use play.Net.Bytes.{write_bytes}
use play.Net.Serializer.{serialize}
use play.Net.LengthDelimited.{encode_into, encode as encode_length}
use play.Net.PlainProtocol.{
  PlainProtocol, init, check_unused, accept, connect, close, is_established, encode, decode,
}
use play.Net.PlainProtocol.RoundTrip.{decode-encode, encode_short_aborts}
use play.Net.PlainProtocol.Stream.{decode_step}
use play.Net.PlainProtocol.Delivery.{encode_all, IsFrame, feed-encode_all}
use play.Net.Session.Receive.{feed}

abbrev server : PlainProtocol
server = record { accepted = true; connected = false; closed = false; codec = true }

abbrev client : PlainProtocol
client = record { accepted = false; connected = true; closed = false; codec = true }

-- The states after the two ways to begin, and the end.
accept-init : accept debug init ≡ ret (server, [])
unfolding accept init check_unused play_check
accept-init = refl

connect-init : connect debug init ≡ ret (client, [])
unfolding connect init check_unused play_check
connect-init = refl

-- A protocol is used once: after `closed()` a build with assertions does not accept again.
reaccept : accept debug (close server) ≡ aborts
unfolding accept close check_unused play_check
reaccept = refl

abbrev frames : List (ℕ × List ℕ)
frames = (3, 10 ∷ 11 ∷ []) ∷ (0x0102, 12 ∷ 13 ∷ 14 ∷ []) ∷ []

abbrev stream : List ℕ
stream = 3 ∷ 0 ∷ 2 ∷ 0 ∷ 0 ∷ 0 ∷ 10 ∷ 11 ∷ 2 ∷ 1 ∷ 3 ∷ 0 ∷ 0 ∷ 0 ∷ 12 ∷ 13 ∷ 14 ∷ []

client_established : is_established client ≡ true
unfolding is_established
client_established = refl

frames-IsFrame : All (IsFrame debug 2) frames
frames-IsFrame = (
  (omega arith, omega arith, omega arith, inr (omega arith)),
  ((omega arith, omega arith, omega arith, inr (omega arith)), tt),
)

frames_bytes : encode_all debug 2 client frames [] ≡ ret stream
unfolding encode_all encode is_established serialize play_check write_bytes encode_length
    encode_into
frames_bytes = refl

-- The first byte, and the rest.
abbrev cut_at_one : List ℕ → List ℕ × List (List ℕ)
cut_at_one bytes = (take 1 bytes, drop 1 bytes ∷ [])

cut_at_one_whole : (bytes : List ℕ) → concat ((cut_at_one bytes).0 ∷ (cut_at_one bytes).1) ≡ bytes
cut_at_one_whole bytes =
    ap (take 1 bytes ++◌) (append-nil (drop 1 bytes)) ∙ take-append-drop 1 bytes

feed-encode_all_example :
    (out : List ℕ) × (encode_all debug 2 client frames [] ≡ ret out)
    × (feed debug (decode_step debug 2) server [] [] (take 1 out ∷ drop 1 out ∷ [])
        ≡ ret (record { state = server; frames = frames; rest = []; failed = false }))
feed-encode_all_example =
    feed-encode_all debug debug 2 client server frames cut_at_one client_established refl
      frames-IsFrame cut_at_one_whole

decode-encode_example :
    (total : ℕ) × (out : List ℕ) × (encode debug 2 client 3 (10 ∷ 11 ∷ []) (9 ∷ [])
      ≡ ret (total, (9 ∷ []) ++ out))
    × (decode debug 2 client (out ++ (7 ∷ []))
        ≡ ret (record { consumed = total; frame = 10 ∷ 11 ∷ []; topic = 3 }))
    × (length out ≡ total)
decode-encode_example =
    decode-encode debug 2 client 3 (10 ∷ 11 ∷ []) (9 ∷ []) (7 ∷ []) client_established refl
      (omega arith) (omega arith) (omega arith) (inr (omega arith))

encode_short_aborts_test : encode debug 2 client 3 (10 ∷ []) [] ≡ aborts
encode_short_aborts_test =
    encode_short_aborts 2 client 3 (10 ∷ []) [] client_established (omega arith)
