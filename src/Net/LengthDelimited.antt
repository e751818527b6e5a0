-- ===== src/Net/LengthDelimited.antt =====
-- play/net/protocol/length_delimited.hpp and .ipp: a payload behind its length in four bytes.
pub mod RoundTrip
use play.Common.{ℕ, ◌+◌, List, [], ◌++◌, ltb, leb, if◌then◌else◌, length, take, drop}
use play.Common.Outcome.{Outcome, ret, faults, ◌>>=◌, ◌>>◌, Build, play_check}
use play.Net.Bytes.{write_bytes, read_bytes}

abbrev pub length_field_size : ℕ
length_field_size = 4

-- Into a mutable buffer of `size` bytes: the bytes written from its start. A write behind the end
-- is undefined.
unfoldable pub encode_into : Build → List ℕ → ℕ → Outcome (List ℕ)
encode_into m src size = do
  play_check m (ltb 0 (length src))
  play_check m (leb (length src) size)
  play_check m (leb (length_field_size + length src) size)
  if leb (length_field_size + length src) size
      then ret (write_bytes length_field_size (length src) ++ src)
      else faults

-- Into a stream buffer, which prepares the room and commits all of it: the total length, and the
-- buffer with the bytes appended.
unfoldable pub encode : Build → List ℕ → List ℕ → Outcome (ℕ × List ℕ)
unfolding encode_into
encode m src dst = do
  play_check m (ltb 0 (length src))
  let total_len = length_field_size + length src
  written ← encode_into m src total_len
  ret (total_len, dst ++ written)

-- The payload, or the empty buffer where the bytes do not hold all of it.
pub decode : List ℕ → List ℕ
decode src =
    if ltb (length src) length_field_size
    then []
    else let len = read_bytes length_field_size 0 src 0 in
      if leb (len + length_field_size) (length src)
      then take len (drop length_field_size src)
      else []
