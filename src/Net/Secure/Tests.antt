-- ===== src/Net/Secure/Tests.antt =====
-- Two sides over a libsodium that encrypts nothing.
use play.Common.{
  ℕ, zero, suc, ◌+◌, ◌%◌, ◌≡◌, refl, sym, ap, ◌∙◌, Bool, true, false, not, some, List, [], ◌∷◌,
  ◌++◌, append-nil, arith,
}
use play.Common.Lists.{length, take, drop, concat, take-append-drop}
use play.Common.Outcome.{ret, debug, release}
use play.Net.Protocol.{Streams}
use play.Net.Bytes.{write_bytes}
use play.Net.Sodium.{Sodium, IsSodium}
use play.Net.Session.Start.{Protocol, on_established, Session, send_handshake, handle_recv}
use play.Net.Session.Start.Coalesced.{handle_recv-coalesced}
use play.Net.LengthDelimited.RoundTrip.{framed}
use play.Net.Secure.Exchange.{key_mark, nonce_mark}
use play.Net.Session.Receive.{feed}
use play.Net.Secure.Exchange.{key_mark, nonce_mark, init as init_handshake}
use play.Net.Secure.{SecureProtocol, init, accept, connect, is_established, handshake, decode}
use play.Net.Secure.Agreement.{
  Paired, begun, keyed, complete, shaking, answers_key, completes_nonce, handshake-Paired,
}
use play.Net.Secure.Stream.{HasCipher, decode-Streams}
use play.Net.Secure.Delivery.{Outgoing, encode_all, feed-encode_all_secure}

abbrev repeat : ℕ → ℕ → List ℕ
repeat zero b = []
repeat (suc n) b = b ∷ repeat n b

abbrev add_one : List ℕ → List ℕ
add_one [] = []
add_one (b ∷ bs) = (b + 1) % 256 ∷ bs

abbrev clear : Sodium
clear = record {
  keypair = λ seed. (repeat 32 (seed % 256), seed ∷ []);
  server_session_keys = λ mine secret theirs. some (theirs, mine);
  client_session_keys = λ mine secret theirs. some (theirs, mine);
  box_seal = λ seed msg key. repeat 48 0 ++ msg;
  box_seal_open = λ box key secret. some (drop 48 box);
  chacha20_xor = λ msg nonce key. some msg;
  increment = add_one;
}

clear-IsSodium : IsSodium clear
clear-IsSodium = record {
  length-pub_key = λ seed. refl;
  session_keys = λ a b. (_, _, refl, refl);
  length-box_seal = λ seed msg key. omega arith;
  box_seal_open-box_seal = λ seed a msg. refl;
  xor_twice = λ msg nonce key. (msg, refl, refl, refl);
}

handshake-Paired_example :
    (p p1 p2 q q1 q2 : SecureProtocol) × (pk pn qk qn : List ℕ) × (accept debug clear 3 init
      ≡ ret (p, pk))
    × (connect release clear 4 init ≡ ret (q, qk))
    × (handshake debug clear 0 (repeat 8 1) p (qk ++ (9 ∷ [])) ≡ ret (p1, length qk, pn))
    × (handshake release clear 0 (repeat 8 2) q (pk ++ (9 ∷ [])) ≡ ret (q1, length pk, qn))
    × (handshake debug clear 0 [] p1 (qn ++ (9 ∷ [])) ≡ ret (p2, length qn, []))
    × (handshake release clear 0 [] q1 (pn ++ (9 ∷ [])) ≡ ret (q2, length pn, []))
    × Paired p2 q2
    × Paired q2 p2
handshake-Paired_example =
    handshake-Paired debug release clear 3 4 0 0 0 0 (repeat 8 1) (repeat 8 2) [] (9 ∷ [])
      clear-IsSodium refl refl

abbrev ready : Bool → List ℕ → List ℕ → List ℕ → List ℕ → SecureProtocol
ready accepted rx tx rx_nonce tx_nonce = record {
  accepted = accepted;
  connected = not accepted;
  closed = false;
  handshake = some (record (init_handshake accepted) {
    key_received = true;
    nonce_received = true;
    established = true;
    rx_key = rx;
    tx_key = tx;
    rx_nonce = rx_nonce;
    tx_nonce = tx_nonce;
  });
  codec = true;
}

abbrev host : SecureProtocol
host = ready true (repeat 32 4) (repeat 32 3) (repeat 8 1) (repeat 8 2)

abbrev guest : SecureProtocol
guest = ready false (repeat 32 3) (repeat 32 4) (repeat 8 2) (repeat 8 1)

guest-HasCipher : HasCipher guest
guest-HasCipher = (_, refl, refl)

decode-Streams_test : Streams HasCipher (decode debug clear 2)
decode-Streams_test = decode-Streams clear clear-IsSodium debug 2

host-Paired : Paired host guest
unfolding is_established
host-Paired = record {
  sender = _;
  receiver = _;
  sends = refl;
  from = refl;
  from_codec = refl;
  to = refl;
  to_codec = refl;
  keys = refl;
  nonces = refl;
}

-- The first five bytes, and the rest.
abbrev cut_at_five : List ℕ → List ℕ × List (List ℕ)
cut_at_five bytes = (take 5 bytes, drop 5 bytes ∷ [])

cut_at_five_whole :
    (bytes : List ℕ) → concat ((cut_at_five bytes).0 ∷ (cut_at_five bytes).1) ≡ bytes
cut_at_five_whole bytes =
    ap (take 5 bytes ++◌) (append-nil (drop 5 bytes)) ∙ take-append-drop 5 bytes

abbrev messages : List Outgoing
messages = (3, true, 10 ∷ 11 ∷ []) ∷ (4, false, 12 ∷ []) ∷ []

feed-encode_all_secure_example :
    (p' q' : SecureProtocol) × (out : List ℕ) × (encode_all debug clear 2 host messages []
      ≡ ret (p', out))
    × (feed debug (decode debug clear 2) guest [] [] (take 5 out ∷ drop 5 out ∷ [])
        ≡ ret (record {
          state = q';
          frames = (3, 10 ∷ 11 ∷ []) ∷ (4, 12 ∷ []) ∷ [];
          rest = [];
          failed = false;
        }))
    × Paired p' q'
feed-encode_all_secure_example =
    feed-encode_all_secure clear clear-IsSodium debug debug 2 host guest messages cut_at_five
      host-Paired
      ((omega arith, omega arith, omega arith), ((omega arith, omega arith, omega arith), tt))
      cut_at_five_whole

-- A server's session over this protocol; its seeds are 0 and its nonce is eight times 1.
abbrev secure_ops : Protocol SecureProtocol
secure_ops = record {
  create = init;
  accepted = accept debug clear 3;
  connected = connect debug clear 3;
  is_established = is_established;
  handshake = handshake debug clear 0 (repeat 8 1);
  decode = decode debug clear 2;
}

abbrev fresh : SecureProtocol
fresh = shaking true (begun clear true 3)

abbrev half : SecureProtocol
half =
    shaking true (keyed (begun clear true 3) (repeat 32 4) (repeat 32 4) (repeat 32 3) (repeat 8 1))

abbrev accepted_session : Session SecureProtocol
accepted_session = record {
  protocol = some fresh;
  handle = 12;
  accepted = true;
  recv_buf = [];
  is_open = true;
}

abbrev key_message : List ℕ
key_message = framed (key_mark ∷ repeat 32 4)

abbrev nonce_message : List ℕ
nonce_message = framed (nonce_mark ∷ (repeat 48 0 ++ repeat 8 2))

abbrev our_nonce : List ℕ
our_nonce = framed (nonce_mark ∷ (repeat 48 0 ++ repeat 8 1))

fresh_answers :
    (after : List ℕ)
    → handshake debug clear 0 (repeat 8 1) fresh (key_message ++ after)
      ≡ ret (half, length key_message, our_nonce)
unfolding framed write_bytes
fresh_answers after =
    answers_key debug clear clear-IsSodium 0 (repeat 8 1) true 3 4 (repeat 32 4) (repeat 32 3) after
      refl

handle_recv-coalesced_example :
    (apart together done : Session SecureProtocol) × (handle_recv debug secure_ops accepted_session
        key_message
      ≡ ret (apart, send_handshake our_nonce))
    × (handle_recv debug secure_ops apart nonce_message ≡ ret (done, on_established ∷ []))
    × (done.protocol
        ≡ some (
            shaking true (
              complete
                (keyed (begun clear true 3) (repeat 32 4) (repeat 32 4) (repeat 32 3) (repeat 8 1))
                (repeat 8 2))))
    × (handle_recv debug secure_ops accepted_session (key_message ++ nonce_message)
        ≡ ret (together, send_handshake our_nonce))
    × (together.recv_buf ≡ nonce_message)
    × (together.protocol ≡ some half)
unfolding is_established framed write_bytes
handle_recv-coalesced_example =
    handle_recv-coalesced debug secure_ops accepted_session fresh half _ key_message nonce_message
      our_nonce refl refl refl refl refl
      (ap (handshake debug clear 0 (repeat 8 1) fresh) (sym (append-nil key_message))
        ∙ fresh_answers [])
      (fresh_answers nonce_message)
      (ap (handshake debug clear 0 (repeat 8 1) half) (sym (append-nil nonce_message))
        ∙ completes_nonce debug clear clear-IsSodium 0 0 (repeat 8 1) (repeat 8 2) true 3
            (repeat 32 4) (repeat 32 4) (repeat 32 3) (repeat 8 1) [] refl)
