-- ===== src/Net/Serializer.antt =====
-- play/net/util/serializer.hpp. `width` is `sizeof(Value)`, and `len` the length that the caller
-- passes for the buffer.
use play.Common.{
  ℕ, ◌^◌, ◌≤◌, ◌<◌, ◌≡◌, refl, ap, ◌∙◌, Bool, true, false, not, List, [], ◌∷◌, ◌++◌, arith, ltb,
  leb, ◌==◌, if◌then◌else◌, le→leb, gt→leb, length, length-append,
}
use play.Common.Outcome.{
  Outcome, ret, aborts, faults, ◌>>◌, Build, debug, release, play_check, play_check-true,
  play_check-ret, ret-injective,
}
use play.Net.Bytes.{write_bytes, read_bytes, length-write_bytes, read-write}

-- The bytes that `serialize` writes at the start of the buffer.
unfoldable pub serialize : Build → ℕ → ℕ → ℕ → Outcome (List ℕ)
serialize m width len v = do play_check m (leb width len); ret (write_bytes width v)

unfoldable pub serialize_bool : Bool → List ℕ
serialize_bool v = (if v then 1 else 0) ∷ []

-- A read behind the end of the buffer is undefined.
pub deserialize : Build → ℕ → ℕ → List ℕ → Outcome ℕ
deserialize m width len bs = do
  play_check m (leb width len)
  if leb width (length bs) then ret (read_bytes width 0 bs 0) else faults

unfoldable pub deserialize_bool : Build → ℕ → List ℕ → Outcome Bool
deserialize_bool m len [] = play_check m (ltb 0 len) >> faults
deserialize_bool m len (b ∷ bs) = do play_check m (ltb 0 len); ret (not (b == 0))

pub serialize_ret :
    (m : Build) (width len v : ℕ)
    → width ≤ len
    → serialize m width len v ≡ ret (write_bytes width v)
unfolding serialize
serialize_ret m width len v h = rw (le→leb width len h, play_check-true)

pub serialize-release :
    (width len v : ℕ) → serialize release width len v ≡ ret (write_bytes width v)
unfolding serialize play_check
serialize-release width len v = refl

pub serialize_short : (width len v : ℕ) → len < width → serialize debug width len v ≡ aborts
unfolding serialize play_check
serialize_short width len v h = rw (gt→leb width len h)

pub deserialize_ret :
    (m : Build) (width len : ℕ) (bs : List ℕ)
    → width ≤ len
    → width ≤ length bs
    → deserialize m width len bs ≡ ret (read_bytes width 0 bs 0)
unfolding deserialize
deserialize_ret m width len bs h room =
    rw (le→leb width len h, play_check-true, le→leb width (length bs) room)

-- `deserialize` gives back the value that `serialize` wrote, in either build, whatever follows the
-- bytes, if the value has its type's width and `deserialize` is told a length that holds it.
pub deserialize-serialize :
    (m : Build) (width v len n : ℕ) (bs rest : List ℕ)
    → v < 256 ^ width
    → width ≤ n
    → serialize m width len v ≡ ret bs
    → deserialize m width n (bs ++ rest) ≡ ret v
unfolding serialize
deserialize-serialize m width v len n bs rest hv hn e =
    let written : write_bytes width v ≡ bs = ret-injective (play_check-ret m _ e) in
    let room : width ≤ length (bs ++ rest) =
      omega (arith, length-append bs rest, ap length written, length-write_bytes width v) in
    deserialize_ret m width n (bs ++ rest) hn room
    ∙ ap ret (rw (← written) (read-write width v rest hv))

pub deserialize_bool-serialize_bool :
    (m : Build) (v : Bool) (rest : List ℕ) → deserialize_bool m 1 (serialize_bool v ++ rest) ≡ ret v
unfolding deserialize_bool serialize_bool
deserialize_bool-serialize_bool m true rest = rw play_check-true
deserialize_bool-serialize_bool m false rest = rw play_check-true
