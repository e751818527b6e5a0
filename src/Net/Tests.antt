-- ===== src/Net/Tests.antt =====
-- Runs of the serializer and of the length codec on concrete bytes.
use play.Common.{ℕ, ◌≡◌, refl, [], ◌∷◌, ◌++◌, arith, length}
use play.Common.Outcome.{ret, debug, play_check}
use play.Net.Bytes.{write_bytes}
use play.Net.Serializer.{serialize, deserialize, deserialize-serialize}
use play.Net.LengthDelimited.{encode_into, encode, decode}
use play.Net.LengthDelimited.RoundTrip.{framed, decode-encode_payload, decode_prefix}

serialize_topic : serialize debug 2 2 0x1234 ≡ ret (0x34 ∷ 0x12 ∷ [])
unfolding serialize play_check write_bytes
serialize_topic = refl

topic_returned : deserialize debug 2 5 ((0x34 ∷ 0x12 ∷ []) ++ (7 ∷ [])) ≡ ret 0x1234
topic_returned =
    deserialize-serialize debug 2 0x1234 2 5 (0x34 ∷ 0x12 ∷ []) (7 ∷ []) (omega arith) (omega arith)
      serialize_topic

encode_payload : encode debug (10 ∷ 11 ∷ []) [] ≡ ret (6, 2 ∷ 0 ∷ 0 ∷ 0 ∷ 10 ∷ 11 ∷ [])
unfolding encode encode_into play_check write_bytes
encode_payload = refl

payload_returned :
    (decode ((2 ∷ 0 ∷ 0 ∷ 0 ∷ 10 ∷ 11 ∷ []) ++ (9 ∷ [])) ≡ 10 ∷ 11 ∷ [])
    × (6 ≡ length {A = ℕ} (2 ∷ 0 ∷ 0 ∷ 0 ∷ 10 ∷ 11 ∷ []))
payload_returned =
    decode-encode_payload debug (10 ∷ 11 ∷ []) (9 ∷ []) (2 ∷ 0 ∷ 0 ∷ 0 ∷ 10 ∷ 11 ∷ []) 6
      (omega arith) (omega arith) encode_payload

framed_bytes : framed (10 ∷ 11 ∷ []) ≡ (2 ∷ 0 ∷ 0 ∷ 0 ∷ 10 ∷ []) ++ (11 ∷ [])
unfolding framed write_bytes
framed_bytes = refl

decode_prefix_example : decode (2 ∷ 0 ∷ 0 ∷ 0 ∷ 10 ∷ []) ≡ []
decode_prefix_example =
    decode_prefix (10 ∷ 11 ∷ []) (2 ∷ 0 ∷ 0 ∷ 0 ∷ 10 ∷ []) [] 11 (omega arith) framed_bytes
