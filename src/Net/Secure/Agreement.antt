-- ===== src/Net/Secure/Agreement.antt =====
-- The two sides of a handshake agree on their keys and nonces.
use play.Common.{
  ℕ, ◌+◌, ◌≡◌, refl, sym, ap, ◌∙◌, Bool, true, false, not, some, List, [], ◌∷◌, ◌++◌, append-nil,
  arith,
}
use play.Common.Tests.{if◌then◌else◌}
use play.Common.Lists.{length, take, drop, take_all}
use play.Common.Outcome.{Outcome, ret, Build, play_check-true}
use play.Net.Sodium.{key_size, nonce_size, Sodium, IsSodium}
use play.Net.LengthDelimited.{length_field_size}
use play.Net.LengthDelimited.RoundTrip.{framed, length-framed}
use play.Net.Secure.Exchange.{
  Handshake, key_mark, nonce_mark, on_nonce, on_key, on_handshake, init as init_handshake,
}
use play.Net.Secure.Messages.{encode_handshake-framed, handshake_answers, handshake_completes}
use play.Net.Secure.{SecureProtocol, init, check_unused, accept, connect, is_established, handshake}

-- What one side transmits is what the other is ready to receive.
pub record Paired (p q : SecureProtocol) : Type 0 where
  pub sender : Handshake
  pub receiver : Handshake
  pub sends : is_established p ≡ true
  pub from : p.handshake ≡ some sender
  pub from_codec : p.codec ≡ true
  pub to : q.handshake ≡ some receiver
  pub to_codec : q.codec ≡ true
  pub keys : sender.tx_key ≡ receiver.rx_key
  pub nonces : sender.tx_nonce ≡ receiver.rx_nonce

-- A side that sent its key, one that got the key of its peer, and one that got its nonce too.
abbrev pub begun : Sodium → Bool → ℕ → Handshake
begun na accepted seed = record (init_handshake accepted) {
  pub_key = (na.keypair seed).0;
  sec_key = (na.keypair seed).1;
}

abbrev pub keyed : Handshake → List ℕ → List ℕ → List ℕ → List ℕ → Handshake
keyed h peer rx tx nonce = record h {
  key_received = true;
  peer_pub_key = peer;
  rx_key = rx;
  tx_key = tx;
  rx_nonce = nonce;
}

abbrev pub complete : Handshake → List ℕ → Handshake
complete h nonce = record h {
  nonce_received = true;
  established = true;
  tx_nonce = nonce ++ drop (length nonce) h.tx_nonce;
}

abbrev pub shaking : Bool → Handshake → SecureProtocol
shaking accepted h = record {
  accepted = accepted;
  connected = not accepted;
  closed = false;
  handshake = some h;
  codec = true;
}

on_handshake_key :
    (m : Build) (na : Sodium) (seed : ℕ) (nonce : List ℕ) (accepted : Bool) (a : ℕ)
    (peer rx tx : List ℕ)
    → length peer ≡ 32
    → (if accepted
        then na.server_session_keys (na.keypair a).0 (na.keypair a).1 peer
        else na.client_session_keys (na.keypair a).0 (na.keypair a).1 peer)
      ≡ some (rx, tx)
    → on_handshake m na seed nonce (begun na accepted a) (key_mark ∷ peer)
      ≡ ret (
        keyed (begun na accepted a) peer rx tx nonce,
        length (key_mark ∷ peer),
        nonce_mark ∷ na.box_seal seed nonce peer,
      )
unfolding on_handshake on_key
on_handshake_key m na seed nonce accepted a peer rx tx size keys =
    let all : take key_size peer ≡ peer = ap (λ n. take n peer) (sym size) ∙ take_all peer in
    rw (on_handshake, on_key, size, play_check-true m, all, keys) (rw (all, size) refl)

on_handshake_nonce :
    (m : Build) (na : Sodium) (law : IsSodium na) (seed seal : ℕ) (unused nonce : List ℕ)
    (accepted : Bool) (a : ℕ) (peer rx tx mine : List ℕ)
    → length nonce ≡ 8
    → on_handshake m na seed unused
        (keyed (begun na accepted a) peer rx tx mine)
        (nonce_mark ∷ na.box_seal seal nonce (na.keypair a).0)
      ≡ ret (
        complete (keyed (begun na accepted a) peer rx tx mine) nonce,
        length (nonce_mark ∷ na.box_seal seal nonce (na.keypair a).0),
        [],
      )
unfolding on_handshake on_nonce
on_handshake_nonce m na law seed seal unused nonce accepted a peer rx tx mine size =
    let whole : length (na.box_seal seal nonce (na.keypair a).0) ≡ 56 =
      omega (arith, law.length-box_seal seal nonce (na.keypair a).0) in
    rw
      (
        on_handshake,
        on_nonce,
        whole,
        play_check-true m,
        law.box_seal_open-box_seal seal a nonce,
        size,
      )
      (rw (whole) refl)

accept_sends :
    (m : Build) (na : Sodium) (law : IsSodium na) (a : ℕ)
    → accept m na a init
      ≡ ret (shaking true (begun na true a), framed (key_mark ∷ (na.keypair a).0))
unfolding accept check_unused
accept_sends m na law a =
    rw
      (
        accept,
        check_unused,
        play_check-true m,
        encode_handshake-framed m (key_mark ∷ (na.keypair a).0) (omega arith),
      )
      refl

connect_sends :
    (m : Build) (na : Sodium) (law : IsSodium na) (a : ℕ)
    → connect m na a init
      ≡ ret (shaking false (begun na false a), framed (key_mark ∷ (na.keypair a).0))
unfolding connect check_unused
connect_sends m na law a =
    rw
      (
        connect,
        check_unused,
        play_check-true m,
        encode_handshake-framed m (key_mark ∷ (na.keypair a).0) (omega arith),
      )
      refl

-- What a side does with the key of its peer, and then with the nonce.
pub answers_key :
    (m : Build) (na : Sodium) (law : IsSodium na) (seed : ℕ) (nonce : List ℕ) (accepted : Bool)
    (a b : ℕ) (rx tx after : List ℕ)
    → (if accepted
        then na.server_session_keys (na.keypair a).0 (na.keypair a).1 (na.keypair b).0
        else na.client_session_keys (na.keypair a).0 (na.keypair a).1 (na.keypair b).0)
      ≡ some (rx, tx)
    → handshake m na seed nonce
        (shaking accepted (begun na accepted a))
        (framed (key_mark ∷ (na.keypair b).0) ++ after)
      ≡ ret (
        shaking accepted (keyed (begun na accepted a) (na.keypair b).0 rx tx nonce),
        length (key_mark ∷ (na.keypair b).0) + length_field_size,
        framed (nonce_mark ∷ na.box_seal seed nonce (na.keypair b).0),
      )
answers_key m na law seed nonce accepted a b rx tx after keys =
    handshake_answers m na seed nonce (shaking accepted (begun na accepted a)) (begun na accepted a)
      (keyed (begun na accepted a) (na.keypair b).0 rx tx nonce) (key_mark ∷ (na.keypair b).0) refl
      (omega arith) (omega (arith, law.length-pub_key b)) after _
      (on_handshake_key m na seed nonce accepted a (na.keypair b).0 rx tx (law.length-pub_key b)
        keys)
      (omega arith)

pub completes_nonce :
    (m : Build) (na : Sodium) (law : IsSodium na) (seed seal : ℕ) (unused nonce : List ℕ)
    (accepted : Bool) (a : ℕ) (peer rx tx mine after : List ℕ)
    → length nonce ≡ 8
    → handshake m na seed unused
        (shaking accepted (keyed (begun na accepted a) peer rx tx mine))
        (framed (nonce_mark ∷ na.box_seal seal nonce (na.keypair a).0) ++ after)
      ≡ ret (
        shaking accepted (complete (keyed (begun na accepted a) peer rx tx mine) nonce),
        length (nonce_mark ∷ na.box_seal seal nonce (na.keypair a).0) + length_field_size,
        [],
      )
completes_nonce m na law seed seal unused nonce accepted a peer rx tx mine after size =
    handshake_completes m na seed unused
      (shaking accepted (keyed (begun na accepted a) peer rx tx mine))
      (keyed (begun na accepted a) peer rx tx mine)
      (complete (keyed (begun na accepted a) peer rx tx mine) nonce)
      (nonce_mark ∷ na.box_seal seal nonce (na.keypair a).0) refl (omega arith)
      (omega (arith, size, law.length-box_seal seal nonce (na.keypair a).0)) after
      (on_handshake_nonce m na law seed seal unused nonce accepted a peer rx tx mine size) refl

-- Two sides that completed with the crossed keys and each other's nonce.
complete-Paired :
    (na : Sodium) (accepted : Bool) (a b : ℕ) (rx tx mine theirs : List ℕ)
    → length theirs ≡ 8
    → Paired
        (shaking accepted
          (complete (keyed (begun na accepted a) (na.keypair b).0 rx tx mine) theirs))
        (shaking
          (not accepted)
          (complete (keyed (begun na (not accepted) b) (na.keypair a).0 tx rx theirs) mine))
unfolding is_established
complete-Paired na accepted a b rx tx mine theirs size = record {
  sender = _;
  receiver = _;
  sends = refl;
  from = refl;
  from_codec = refl;
  to = refl;
  to_codec = refl;
  keys = refl;
  nonces = ap (λ n. theirs ++ drop n []) size ∙ append-nil theirs;
}

-- Handling the four messages, with any bytes behind each: `accepted()` and `connected()` give the
-- keys to send, each side answers the other's key with its nonce, takes the other's nonce and is
-- established. Each call consumes its message exactly. In both directions what one side transmits
-- is what the other is ready to receive. libsodium does what it documents, and the nonces are of
-- its size.
pub handshake-Paired :
    (m n : Build) (na : Sodium) (a b x y u v : ℕ) (r s w after : List ℕ)
    → IsSodium na
    → length r ≡ nonce_size
    → length s ≡ nonce_size
    → (p p1 p2 q q1 q2 : SecureProtocol) × (pk pn qk qn : List ℕ) × (accept m na a init
        ≡ ret (p, pk))
      × (connect n na b init ≡ ret (q, qk))
      × (handshake m na x r p (qk ++ after) ≡ ret (p1, length qk, pn))
      × (handshake n na y s q (pk ++ after) ≡ ret (q1, length pk, qn))
      × (handshake m na u w p1 (qn ++ after) ≡ ret (p2, length qn, []))
      × (handshake n na v w q1 (pn ++ after) ≡ ret (q2, length pn, []))
      × Paired p2 q2
      × Paired q2 p2
handshake-Paired m n na a b x y u v r s w after law size_r size_s =
    let (rx, tx, server_keys, client_keys) = law.session_keys a b in
    (
      _,
      _,
      _,
      _,
      _,
      _,
      _,
      _,
      _,
      _,
      accept_sends m na law a,
      connect_sends n na law b,
      answers_key m na law x r true a b rx tx after server_keys ∙ used _ _ _,
      answers_key n na law y s false b a tx rx after client_keys ∙ used _ _ _,
      completes_nonce m na law u y w s true a (na.keypair b).0 rx tx r after size_s ∙ used _ _ _,
      completes_nonce n na law v x w r false b (na.keypair a).0 tx rx s after size_r ∙ used _ _ _,
      complete-Paired na true a b rx tx r s size_s,
      complete-Paired na false b a tx rx s r size_r,
    )
  where
    used :
        (p : SecureProtocol) (msg send : List ℕ)
        → ◌≡◌ {A = Outcome (SecureProtocol × ℕ × List ℕ)}
            (ret (p, length msg + length_field_size, send))
            (ret (p, length (framed msg), send))
    used p msg send = ap (λ k. ret (p, k, send)) (omega (arith, length-framed msg))
