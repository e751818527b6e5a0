-- ===== src/Net/Secure/Messages.antt =====
-- What `handshake` of the secure protocol does with one message of the other side.
use play.Common.{ℕ, ◌+◌, ◌^◌, ◌<◌, ◌≡◌, refl, ◌∙◌, true, not, some, List, [], ◌++◌, arith}
use play.Common.Tests.{ltb, ◌==◌, if◌then◌else◌, lt→ltb, ==_iff, ==_refl}
use play.Common.Lists.{length}
use play.Common.Outcome.{Outcome, ret, ◌>>=◌, ◌>>◌, Build, play_check, play_check-true}
use play.Net.Sodium.{Sodium}
use play.Net.LengthDelimited.{length_field_size}
use play.Net.LengthDelimited.RoundTrip.{framed, encode-framed, decode-framed}
use play.Net.Secure.Exchange.{Handshake, on_handshake}
use play.Net.Secure.{SecureProtocol, encode_handshake, peer_handshake, handshake}

pub encode_handshake-framed :
    (m : Build) (src : List ℕ) → 0 < length src → encode_handshake m src ≡ ret (framed src)
unfolding encode_handshake
encode_handshake-framed m src h =
    let size : ((4 + length src) == (length src + 4)) ≡ true = (==_iff _ _).1 (omega arith) in
    rw (encode-framed m src [] h) (rw (size, play_check-true m) refl)

module _ (m : Build) (na : Sodium) (seed : ℕ) (nonce : List ℕ) (p : SecureProtocol)
    (h h' : Handshake) (payload : List ℕ) (at_p : p.handshake ≡ some h) (full : 0 < length payload)
    (fits : length payload < 2 ^ 32) where
  abbrev pub after_handshake : List ℕ → Outcome (SecureProtocol × ℕ × List ℕ)
  after_handshake send =
      ret (record p { handshake = some h' }, length payload + length_field_size, send)

  handshake-on_handshake :
      (rest resp : List ℕ)
      → on_handshake m na seed nonce h payload ≡ ret (h', length payload, resp)
      → handshake m na seed nonce p (framed payload ++ rest) ≡ (
          if not (ltb 0 (length resp))
          then play_check m h'.established
            >> ret (record p { handshake = some h' }, length payload + length_field_size, [])
          else encode_handshake m resp >>= (λ send.
            ret (record p { handshake = some h' }, length payload + length_field_size, send)))
  unfolding handshake peer_handshake
  handshake-on_handshake rest resp e =
      rw
        (
          handshake,
          decode-framed payload rest fits,
          lt→ltb 0 (length payload) full,
          held,
          e,
          ==_refl (length payload),
          play_check-true m,
        )
        refl
    where
      held : peer_handshake p ≡ ret h
      held = rw (peer_handshake, at_p) refl

  -- Where `on_handshake` answers, the answer is sent in a frame.
  pub handshake_answers :
      (rest resp : List ℕ)
      → on_handshake m na seed nonce h payload ≡ ret (h', length payload, resp)
      → 0 < length resp
      → handshake m na seed nonce p (framed payload ++ rest) ≡ after_handshake (framed resp)
  handshake_answers rest resp e some_bytes =
      handshake-on_handshake rest resp e
      ∙ rw (lt→ltb 0 (length resp) some_bytes, encode_handshake-framed m resp some_bytes) refl

  pub handshake_completes :
      (rest : List ℕ)
      → on_handshake m na seed nonce h payload ≡ ret (h', length payload, [])
      → h'.established ≡ true
      → handshake m na seed nonce p (framed payload ++ rest) ≡ after_handshake []
  handshake_completes rest e est =
      handshake-on_handshake rest [] e ∙ rw (est, play_check-true m) refl
