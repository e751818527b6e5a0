-- ===== src/Base/StringUtil/Tokens.antt =====
-- The tokens of a text between single-byte delimiters, defined without positions.
use play.Common.{
  ℕ, ◌≡◌, refl, sym, ap, ◌∙◌, ◌≢◌, inl, inr, false, List, [], ◌∷◌, ◌++◌, append-nil, append_assoc,
  ◌==◌, if◌then◌else◌, ==_refl, Bool-cases, All, concat, All-append,
}

-- The token that has been collected, if it is not empty.
abbrev pub flush : List ℕ → List (List ℕ)
flush [] = []
flush (x ∷ xs) = (x ∷ xs) ∷ []

-- Collects a token in `cur`, and ends it at each delimiter `c`.
unfoldable pub tokens : ℕ → List ℕ → List ℕ → List (List ℕ)
tokens c cur [] = flush cur
tokens c cur (x ∷ s) =
    let after_delimiter = flush cur ++ tokens c [] s in
    let longer = tokens c (cur ++ (x ∷ [])) s in if x == c then after_delimiter else longer

abbrev pub Free : ℕ → List ℕ → Type 0
Free c = All (λ x. (x == c) ≡ false)

abbrev pub IsToken : ℕ → List ℕ → Type 0
IsToken c t = (t ≢ []) × Free c t

unfoldable pub join : ℕ → List (List ℕ) → List ℕ
join c [] = []
join c (t ∷ []) = t
join c (t ∷ u ∷ ts) = t ++ (c ∷ join c (u ∷ ts))

-- The bytes that are no delimiters.
pub without : ℕ → List ℕ → List ℕ
without c [] = []
without c (x ∷ s) = (if x == c then [] else x ∷ []) ++ without c s

pub tokens-Free : (c : ℕ) (cur a : List ℕ) → Free c a → tokens c cur a ≡ flush (cur ++ a)
unfolding tokens
tokens-Free c cur [] h = ap flush (sym (append-nil cur))
tokens-Free c cur (x ∷ a) (h, t) =
    rw h (tokens-Free c (cur ++ (x ∷ [])) a t ∙ ap flush (append_assoc cur (x ∷ []) a))

pub tokens_break :
    (c : ℕ) (cur a b : List ℕ)
    → Free c a
    → tokens c cur (a ++ (c ∷ b)) ≡ flush (cur ++ a) ++ tokens c [] b
unfolding tokens
tokens_break c cur [] b h = rw (==_refl c, append-nil)
tokens_break c cur (x ∷ a) b (h, t) = rw h (
    tokens_break c (cur ++ (x ∷ [])) a b t
    ∙ ap (λ l. flush l ++ tokens c [] b) (append_assoc cur (x ∷ []) a))

flush_token : (t : List ℕ) → t ≢ [] → flush t ≡ t ∷ []
flush_token [] h = absurd (h refl)
flush_token (x ∷ t) h = refl

pub tokens-join : (c : ℕ) (ts : List (List ℕ)) → All (IsToken c) ts → tokens c [] (join c ts) ≡ ts
unfolding join
tokens-join c [] h = unfold tokens in refl
tokens-join c (t ∷ []) ((ne, free), _) = tokens-Free c [] t free ∙ flush_token t ne
tokens-join c (t ∷ u ∷ ts) ((ne, free), rest) =
    tokens_break c [] t (join c (u ∷ ts)) free
    ∙ rw (flush_token t ne) (ap (◌∷◌ t) (tokens-join c (u ∷ ts) rest))

flush-IsToken : (c : ℕ) (t : List ℕ) → Free c t → All (IsToken c) (flush t)
flush-IsToken c [] h = tt
flush-IsToken c (x ∷ t) h = (((λ e. cc), h), tt)

concat-append : (ts us : List (List ℕ)) → concat (ts ++ us) ≡ concat ts ++ concat us
concat-append [] us = refl
concat-append (t ∷ ts) us = rw (concat-append ts us) (sym (append_assoc t (concat ts) (concat us)))

concat-flush : (t : List ℕ) → concat (flush t) ≡ t
concat-flush [] = refl
concat-flush (x ∷ t) = append-nil (x ∷ t)

-- Every token is non-empty and free of the delimiter, and no other byte is lost.
pub tokens-IsToken : (c : ℕ) (cur s : List ℕ) → Free c cur → All (IsToken c) (tokens c cur s)
unfolding tokens
tokens-IsToken c cur [] h = flush-IsToken c cur h
tokens-IsToken c cur (x ∷ s) h = elim (Bool-cases (x == c)) [
  | inl e ↦ rw e (All-append _ _ _ (flush-IsToken c cur h) (tokens-IsToken c [] s tt))
  | inr e ↦ rw e (tokens-IsToken c (cur ++ (x ∷ [])) s (All-append _ _ _ h (e, tt)))
]

pub concat-tokens : (c : ℕ) (cur s : List ℕ) → concat (tokens c cur s) ≡ cur ++ without c s
unfolding tokens without
concat-tokens c cur [] = concat-flush cur ∙ sym (append-nil cur)
concat-tokens c cur (x ∷ s) = elim (Bool-cases (x == c)) [
  | inl e ↦ rw (e, concat-append (flush cur), concat-flush cur, concat-tokens c [] s)
  | inr e ↦ rw (e, concat-tokens c (cur ++ (x ∷ [])) s, append_assoc cur)
]
