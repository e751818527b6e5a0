-- ===== src/Base/StringUtil/Split.antt =====
-- `split` with one delimiter byte, as every caller has it, against the tokens of the text.
use play.Common.{
  ℕ, zero, suc, ◌+◌, ◌-◌, ◌<◌, ◌≡◌, refl, sym, ap, ◌∙◌, ◌⊎◌, inl, inr, true, false, Option, none,
  some, List, [], ◌∷◌, ◌++◌, append-nil, append_assoc, arith, ltb, ◌==◌, if◌then◌else◌, lt→ltb,
  ==_iff, Bool-cases, length, take, drop, All, concat, length-append, take_of_append,
  drop_of_append,
}
use play.Base.StringUtil.{one_of, find_from, split_loop, split}
use play.Base.StringUtil.Tokens.{
  flush, tokens, Free, IsToken, join, without, tokens-Free, tokens_break, tokens-join,
  tokens-IsToken, concat-tokens,
}

one_of_single : (x c : ℕ) → one_of x (c ∷ []) ≡ (x == c)
unfolding one_of
one_of_single x c = ground arith

find_from_hit :
    (x c : ℕ) (rest : List ℕ) (i : ℕ) → (x == c) ≡ true → find_from (x ∷ rest) (c ∷ []) i ≡ some i
unfolding find_from
find_from_hit x c rest i h = rw (one_of_single x c, h)

find_from_miss :
    (x c : ℕ) (rest : List ℕ) (i : ℕ)
    → (x == c) ≡ false
    → find_from (x ∷ rest) (c ∷ []) i ≡ find_from rest (c ∷ []) (i + 1)
unfolding find_from
find_from_miss x c rest i h = rw (one_of_single x c, h)

-- A search ends at the first delimiter, if there is one.
abbrev Found : ℕ → List ℕ → ℕ → Option ℕ → Type 0
Found c rest i r =
    (Free c rest × (r ≡ none))
    ⊎ ((a : List ℕ) × (b : List ℕ) × (rest ≡ a ++ (c ∷ b)) × Free c a × (r ≡ some (i + length a)))

find_from-Found : (c : ℕ) (rest : List ℕ) (i : ℕ) → Found c rest i (find_from rest (c ∷ []) i)
find_from-Found c [] i = inl (tt, unfold find_from in refl)
find_from-Found c (x ∷ rest) i = elim (Bool-cases (x == c)) [
  | inl e ↦ inr (
    [],
    rest,
    ap (λ y. y ∷ rest) ((==_iff x c).0 e),
    tt,
    find_from_hit x c rest i e ∙ ap some (omega arith),
  )
  | inr e ↦ elim (find_from-Found c rest (i + 1)) [
    | inl (h, n) ↦ inl ((e, h), find_from_miss x c rest i e ∙ n)
    | inr (a, b, s, h, n) ↦
        inr
          (x ∷ a, b, ap (◌∷◌ x) s, (e, h), find_from_miss x c rest i e ∙ n ∙ ap some (omega arith))
  ]
]

-- What the loop pushes for the bytes from `ppos` to `cpos`.
push_token :
    (pre a b : List ℕ) (ppos : ℕ) (result : List (List ℕ))
    → ppos ≡ length pre
    → (if ltb ppos (ppos + length a)
        then result ++ (take (ppos + length a - ppos) (drop ppos (pre ++ (a ++ b))) ∷ [])
        else result)
      ≡ result ++ flush a
push_token pre [] b ppos result e = ground (arith, append-nil result)
push_token pre (x ∷ a) b ppos result e =
    let cut : drop ppos (pre ++ ((x ∷ a) ++ b)) ≡ (x ∷ a) ++ b = drop_of_append ppos pre _ e in
    rw (lt→ltb ppos (ppos + length (x ∷ a)) (omega arith), cut)
      (ap (λ t. result ++ (t ∷ [])) (take_of_append _ (x ∷ a) b (omega arith)))

-- What is pushed behind the last delimiter.
last_token :
    (pre rest : List ℕ) (ppos : ℕ) (result : List (List ℕ))
    → ppos ≡ length pre
    → (if ltb ppos (length (pre ++ rest)) then result ++ (drop ppos (pre ++ rest) ∷ []) else result)
      ≡ result ++ flush rest
last_token pre [] ppos result e = ground (arith, append-nil result, append-nil pre)
last_token pre (x ∷ rest) ppos result e =
    rw (lt→ltb ppos (length (pre ++ (x ∷ rest))) (omega (arith, length-append pre (x ∷ rest))))
      (ap (λ t. result ++ (t ∷ [])) (drop_of_append ppos pre (x ∷ rest) e))

-- A round of the loop over a token `a` that the delimiter `c` ends.
split_loop_round :
    (c fuel ppos : ℕ) (pre a b : List ℕ) (result : List (List ℕ))
    → ppos ≡ length pre
    → split_loop (suc fuel) (pre ++ (a ++ (c ∷ b))) (c ∷ []) ppos (some (ppos + length a)) result
      ≡ split_loop fuel
          ((pre ++ (a ++ (c ∷ []))) ++ b)
          (c ∷ [])
          (ppos + length a + 1)
          (find_from b (c ∷ []) (ppos + length a + 1))
          (result ++ flush a)
unfolding split_loop
split_loop_round c fuel ppos pre a b result e =
    let pre' : List ℕ = pre ++ (a ++ (c ∷ [])) in
    let split : pre ++ (a ++ (c ∷ b)) ≡ pre' ++ b =
      sym (append_assoc pre _ b ∙ ap (◌++◌ pre) (append_assoc a (c ∷ []) b)) in
    let behind : ppos + length a + 1 ≡ length pre' =
      omega (arith, length-append pre (a ++ (c ∷ [])), length-append a (c ∷ [])) in
    let cut : drop (ppos + length a + 1) (pre ++ (a ++ (c ∷ b))) ≡ b =
      rw split (drop_of_append (ppos + length a + 1) pre' b behind) in
    let after = ppos + length a + 1 in
    rw (split_loop, push_token pre a (c ∷ b) ppos result e, cut)
      (ap (λ t. split_loop fuel t (c ∷ []) after (find_from b (c ∷ []) after) (result ++ flush a))
        split)

-- The loop at `ppos`, with `pre` behind it and `rest` before it.
split_loop-tokens :
    (c fuel ppos : ℕ) (pre rest : List ℕ) (result : List (List ℕ))
    → ppos ≡ length pre
    → length rest < fuel
    → split_loop fuel (pre ++ rest) (c ∷ []) ppos (find_from rest (c ∷ []) ppos) result
      ≡ result ++ tokens c [] rest
split_loop-tokens c zero ppos pre rest result e h = absurd (omega arith)
split_loop-tokens c (suc fuel) ppos pre rest result e h = elim (find_from-Found c rest ppos) [
  | inl (free, n) ↦
      rw (n, tokens-Free c [] rest free) (unfold split_loop in last_token pre rest ppos result e)
  | inr (a, b, s, free, n) ↦
      let shorter : length b < fuel = omega (arith, ap length s, length-append a (c ∷ b)) in
      let behind : ppos + length a + 1 ≡ length (pre ++ (a ++ (c ∷ []))) =
        omega (arith, length-append pre (a ++ (c ∷ [])), length-append a (c ∷ [])) in
      rw (n, s, split_loop_round c fuel ppos pre a b result e, tokens_break c [] a b free)
        (split_loop-tokens c fuel (ppos + length a + 1) _ b (result ++ flush a) behind shorter
          ∙ append_assoc result (flush a) (tokens c [] b))
]

-- For a delimiter of one byte `split` returns the tokens of the text.
pub split-tokens : (c : ℕ) (s : List ℕ) → split s (c ∷ []) ≡ tokens c [] s
unfolding split
split-tokens c [] = sym (tokens-Free c [] [] tt)
split-tokens c (x ∷ s) =
    split_loop-tokens c (suc (length (x ∷ s))) 0 [] (x ∷ s) [] refl (omega arith)

-- The parts of a joined text are the parts that were joined, if these are non-empty and free of the
-- delimiter.
pub split-join : (c : ℕ) (ts : List (List ℕ)) → All (IsToken c) ts → split (join c ts) (c ∷ []) ≡ ts
split-join c ts h = split-tokens c (join c ts) ∙ tokens-join c ts h

-- On any text, `split` returns non-empty parts free of the delimiter, and these hold every other
-- byte of the text in its order.
pub split_parts :
    (c : ℕ) (s : List ℕ)
    → All (IsToken c) (split s (c ∷ [])) × (concat (split s (c ∷ [])) ≡ without c s)
split_parts c s = rw (split-tokens c s) (tokens-IsToken c [] s tt, concat-tokens c [] s)
