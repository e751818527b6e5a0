-- ===== src/Net/Address.antt =====
-- play/net/util/address.cpp. What std::atoi makes of a text, as a number of 32 bits, is an argument.
use play.Common.{ℕ, ◌%◌, ◌≡◌, refl, List, [], ◌∷◌}
use play.Base.StringUtil.{split}
use play.Base.StringUtil.Tokens.{IsToken, join}
use play.Base.StringUtil.Split.{split-join}

-- ":"
abbrev pub colon : ℕ
colon = 58

module _ (atoi : List ℕ → ℕ) where
  -- The port is narrowed to 16 bits.
  unfoldable pub host_and_port : List (List ℕ) → List ℕ × ℕ
  host_and_port (host ∷ port ∷ vs) = (host, atoi port % 65536)
  host_and_port _ = ([], 0)

  unfoldable pub parse : List ℕ → List ℕ × ℕ
  unfolding host_and_port
  parse ip_addr = host_and_port (split ip_addr (colon ∷ []))

  -- A host and a port that are not empty and hold no colon are read back from their joined text, the
  -- port modulo 2 ^ 16; and a text of one part alone gives the empty host and port 0.
  pub parse-join :
      (host port : List ℕ)
      → IsToken colon host
      → IsToken colon port
      → (parse (join colon (host ∷ port ∷ [])) ≡ (host, atoi port % 65536))
        × (parse (join colon (host ∷ [])) ≡ ([], 0))
  unfolding parse host_and_port
  parse-join host port is_host is_port = (
    rw (split-join colon (host ∷ port ∷ []) (is_host, (is_port, tt))) refl,
    rw (split-join colon (host ∷ []) (is_host, tt)) refl,
  )
