-- ===== src/Net/PlainProtocol.antt =====
-- play/net/protocol/plain_protocol.hpp and .ipp. `width` is `sizeof(Topic)`; a topic is a number
-- below `256 ^ width`. A flag `codec` stands for `length_codec_`, which has no state of its own.
pub mod Tests
pub mod RoundTrip
pub mod Stream
pub mod Delivery
use play.Net.Protocol.{Decoded, nothing}
use play.Common.{
  ℕ, ◌+◌, ◌≡◌, ap, Bool, true, false, not, ◌&&◌, ◌||◌, List, [], ◌++◌, ltb, leb, ◌==◌,
  if◌then◌else◌, length, drop,
}
use play.Common.Outcome.{Outcome, ret, faults, ◌>>=◌, ◌>>◌, Build, play_check}
use play.Net.Serializer.{serialize, deserialize}
use play.Net.LengthDelimited.{length_field_size, encode as encode_length, decode as decode_length}

pub record PlainProtocol : Type 0 where
  pub accepted : Bool
  pub connected : Bool
  pub closed : Bool
  pub codec : Bool

-- The constructor.
pub init : PlainProtocol
init = record { accepted = false; connected = false; closed = true; codec = false }

-- The four checks with which `accepted()` and `connected()` begin.
pub check_unused : Build → PlainProtocol → Outcome (Unit {0})
check_unused m p = do
  play_check m (not p.accepted)
  play_check m (not p.connected)
  play_check m p.closed
  play_check m (not p.codec)

-- Both return the empty buffer: there is nothing to negotiate.
pub accept : Build → PlainProtocol → Outcome (PlainProtocol × List ℕ)
unfolding check_unused
accept m p = do
  check_unused m p
  ret (record p { accepted = true; closed = false; codec = true }, [])

pub connect : Build → PlainProtocol → Outcome (PlainProtocol × List ℕ)
unfolding check_unused
connect m p = do
  check_unused m p
  ret (record p { connected = true; closed = false; codec = true }, [])

pub close : PlainProtocol → PlainProtocol
close p = if p.closed then p else record p { closed = true }

unfoldable pub is_established : PlainProtocol → Bool
is_established p = (p.accepted || p.connected) && not p.closed

abbrev pub min_size : ℕ → ℕ
min_size width = length_field_size + width

-- The length that `encode` returns, and the stream buffer. The topic is committed first; then the
-- codec prepares and commits the rest. `serialize` is told the length of the payload.
pub encode : Build → ℕ → PlainProtocol → ℕ → List ℕ → List ℕ → Outcome (ℕ × List ℕ)
unfolding is_established
encode m width p pic src dst = do
  play_check m (not p.closed)
  if p.closed then ret (0, dst) else do
    play_check m (is_established p)
    let total_len = length_field_size + length src + width
    topic ← serialize m width (length src) pic
    (size, dst') ← encode_length m src (dst ++ topic)
    play_check m (size == length src + length_field_size)
    ret (total_len, dst')

-- `decode` with a codec.
pub decode_frame : Build → ℕ → List ℕ → Outcome Decoded
decode_frame m width src = if leb (length src) (min_size width) then ret nothing else do
  pic ← deserialize m width (length src) src
  let frame = decode_length (drop width src)
  ret (
      if ltb 0 (length frame)
      then record {
        consumed = width + length_field_size + length frame;
        frame = frame;
        topic = pic;
      }
      else nothing)

-- Without a codec, before `accepted()` or `connected()`, it is called through a null pointer.
pub decode : Build → ℕ → PlainProtocol → List ℕ → Outcome Decoded
unfolding decode_frame
decode m width p src = if p.codec then decode_frame m width src else faults

pub decode_with_codec :
    (m : Build) (width : ℕ) (p : PlainProtocol) (src : List ℕ)
    → p.codec ≡ true
    → decode m width p src ≡ decode_frame m width src
unfolding decode
decode_with_codec m width p src codec =
    ap (λ c. if c then decode_frame m width src else faults) codec
