-- ===== src/Base/StringUtil/Tests.antt =====
-- Runs of `split` on concrete texts.
use play.Common.{ℕ, ◌≡◌, refl, List, [], ◌∷◌}
use play.Common.Lists.{All, concat}
use play.Base.StringUtil.{one_of, find_from, find_first_of, split_loop, split}
use play.Base.StringUtil.Tokens.{IsToken, join, without}
use play.Base.StringUtil.Split.{split-join, split_parts}

-- "ab", "c", "def" with `/`.
abbrev parts : List (List ℕ)
parts = (97 ∷ 98 ∷ []) ∷ (99 ∷ []) ∷ (100 ∷ 101 ∷ 102 ∷ []) ∷ []

abbrev slash : ℕ
slash = 47

parts-IsToken : All (IsToken slash) parts
parts-IsToken = (
  (λ e. cc, (refl, (refl, tt))),
  ((λ e. cc, (refl, tt)), ((λ e. cc, (refl, (refl, (refl, tt)))), tt)),
)

split-join_example : split (join slash parts) (slash ∷ []) ≡ parts
split-join_example = split-join slash parts parts-IsToken

-- "/ab//c/"
abbrev ragged : List ℕ
ragged = 47 ∷ 97 ∷ 98 ∷ 47 ∷ 47 ∷ 99 ∷ 47 ∷ []

split_parts_example :
    All (IsToken slash) (split ragged (slash ∷ []))
    × (concat (split ragged (slash ∷ [])) ≡ without slash ragged)
split_parts_example = split_parts slash ragged

split-ragged : split ragged (slash ∷ []) ≡ (97 ∷ 98 ∷ []) ∷ (99 ∷ []) ∷ []
unfolding split split_loop find_first_of find_from one_of
split-ragged = refl

-- Of two delimiter bytes each one ends a token, and two bytes are skipped behind it: "a/bc" with
-- "/:" loses the "b".
split_two_delimiters : split (97 ∷ 47 ∷ 98 ∷ 99 ∷ []) (47 ∷ 58 ∷ []) ≡ (97 ∷ []) ∷ (99 ∷ []) ∷ []
unfolding split split_loop find_first_of find_from one_of
split_two_delimiters = refl
