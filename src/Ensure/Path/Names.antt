-- ===== src/Ensure/Path/Names.antt =====
-- Paths that are put together from names, and the names that are taken from them.
use play.Common.{
  ℕ, ◌≡◌, refl, ap, ◌∙◌, true, false, some, List, [], ◌∷◌, ◌++◌, append_assoc, arith, leb,
  if◌then◌else◌, gt→leb,
}
use play.Common.Lists.{length, is_empty, All, All-append}
use play.Common.Outcome.{ret}
use play.Base.StringUtil.{split}
use play.Base.StringUtil.Tokens.{IsToken, join, tokens_break, tokens-join}
use play.Base.StringUtil.Split.{split-tokens, split-join}
use play.Ensure.Path.{
  slash, ActPath, back, setup, is_absolute_path, get_first_act, join_acts, pop_head_act, push_all,
  append_all, build_path,
}

-- A name of an act: not empty, without a slash.
abbrev pub IsName : List ℕ → Type 0
IsName = IsToken slash

append_all-join :
    (full name : List ℕ) (stack : List (List ℕ))
    → append_all full stack ++ name ≡ full ++ join slash (stack ++ (name ∷ []))
unfolding join
append_all-join full name [] = refl
append_all-join full name (n ∷ []) =
    append_assoc (full ++ n) (slash ∷ []) name ∙ append_assoc full n (slash ∷ name)
append_all-join full name (n ∷ k ∷ stack) =
    append_all-join ((full ++ n) ++ (slash ∷ [])) name (k ∷ stack)
    ∙ append_assoc (full ++ n) (slash ∷ []) _
    ∙ append_assoc full n _

push_all-IsName :
    (names stack : List (List ℕ))
    → All IsName names
    → All IsName stack
    → All IsName (push_all names stack)
push_all-IsName [] stack hn hs = hs
push_all-IsName (n ∷ names) stack (h, hn) hs = push_all-IsName names (n ∷ stack) hn (h, hs)

back-append : (ps : List (List ℕ)) (p : List ℕ) → back (ps ++ (p ∷ [])) ≡ some p
back-append [] p = refl
back-append (q ∷ []) p = refl
back-append (q ∷ r ∷ ps) p = back-append (r ∷ ps) p

split_absolute :
    (ts : List (List ℕ)) → All IsName ts → split (slash ∷ join slash ts) (slash ∷ []) ≡ ts
split_absolute ts h =
    split-tokens slash (slash ∷ join slash ts)
    ∙ tokens_break slash [] [] (join slash ts) tt
    ∙ tokens-join slash ts h

setup_parts :
    (full : List ℕ) (parts : List (List ℕ)) (name : List ℕ)
    → split full (slash ∷ []) ≡ parts
    → back parts ≡ some name
    → setup full ≡ ret (record { full_path = full; parts = parts; act_name = name })
unfolding setup
setup_parts full parts name e last = rw (setup, e, last) (rw (e) refl)

-- The path that an act builds from its name and those of its ancestors begins with a slash, has
-- these names from the root down as its parts, and ends with the act's own. Names are not empty and
-- have no slash.
pub build_path_lem :
    (ancestors : List (List ℕ)) (name : List ℕ)
    → All IsName ancestors
    → IsName name
    → (p : ActPath) × (build_path ancestors name ≡ ret p)
      × (is_absolute_path p.full_path ≡ true)
      × (p.parts ≡ push_all ancestors [] ++ (name ∷ []))
      × (p.act_name ≡ name)
unfolding build_path
build_path_lem ancestors name ha hn =
    let stack = push_all ancestors [] in
    let text : append_all (slash ∷ []) stack ++ name ≡ slash ∷ join slash (stack ++ (name ∷ [])) =
      append_all-join (slash ∷ []) name stack in
    let cut : split (slash ∷ join slash (stack ++ (name ∷ []))) (slash ∷ [])
        ≡ stack ++ (name ∷ []) =
      split_absolute (stack ++ (name ∷ []))
        (All-append IsName stack (name ∷ []) (push_all-IsName ancestors [] ha tt) (hn, tt)) in
    (
      record {
        full_path = slash ∷ join slash (stack ++ (name ∷ []));
        parts = stack ++ (name ∷ []);
        act_name = name;
      },
      rw (build_path, text)
          (setup_parts (slash ∷ join slash (stack ++ (name ∷ []))) (stack ++ (name ∷ [])) name cut
            (back-append stack name)),
      refl,
      refl,
      refl,
    )

join_acts-join : (ts : List (List ℕ)) → join_acts ts ≡ join slash ts
unfolding join
join_acts-join [] = refl
join_acts-join (t ∷ []) = refl
join_acts-join (t ∷ u ∷ ts) = ap (λ l. t ++ (slash ∷ l)) (join_acts-join (u ∷ ts))

tail_at_most_one :
    (t u : List ℕ) (ts : List (List ℕ)) → leb (length {A = List ℕ} (t ∷ u ∷ ts)) 1 ≡ false
tail_at_most_one t u ts = gt→leb (length {A = List ℕ} (t ∷ u ∷ ts)) 1 (omega arith)

setup-join :
    (t : List ℕ) (ts : List (List ℕ)) (name : List ℕ)
    → All IsName (t ∷ ts)
    → back (t ∷ ts) ≡ some name
    → setup (join slash (t ∷ ts))
      ≡ ret (record { full_path = join slash (t ∷ ts); parts = t ∷ ts; act_name = name })
setup-join t ts name h e =
    setup_parts (join slash (t ∷ ts)) (t ∷ ts) name (split-join slash (t ∷ ts) h) e

back-some : (t : List ℕ) (ts : List (List ℕ)) → (name : List ℕ) × (back (t ∷ ts) ≡ some name)
back-some t [] = (t, refl)
back-some t (u ∷ ts) = back-some u ts

not_empty : (ts : List (List ℕ)) (t : List ℕ) → IsName t → is_empty (join slash (t ∷ ts)) ≡ false
unfolding join
not_empty [] [] (full, free) = absurd (full refl)
not_empty [] (c ∷ t) h = refl
not_empty (u ∷ ts) [] (full, free) = absurd (full refl)
not_empty (u ∷ ts) (c ∷ t) h = refl

-- Of a relative path that is put together from names, `get_first_act` is the first one and
-- `pop_head_act` the path of the others, the empty one where there are none. Names are not empty
-- and have no slash.
pub pop_head_act-join_acts :
    (t : List ℕ) (ts : List (List ℕ))
    → All IsName (t ∷ ts)
    → (get_first_act (join_acts (t ∷ ts)) ≡ ret t)
      × (pop_head_act (join_acts (t ∷ ts)) ≡ ret (join_acts ts))
unfolding get_first_act pop_head_act
pop_head_act-join_acts t ts h =
    let (name, last) = back-some t ts in
    let whole = setup-join t ts name h last in
    (
      rw (join_acts-join (t ∷ ts), get_first_act, not_empty ts t h.0, whole) refl,
      rw (join_acts-join (t ∷ ts), pop_head_act, whole) (rest ts),
    )
  where
    rest :
        (us : List (List ℕ))
        → (if leb (length {A = List ℕ} (t ∷ us)) 1 then ret [] else ret (join_acts us))
          ≡ ret (join_acts us)
    rest [] = refl
    rest (u ∷ us) = rw (tail_at_most_one t u us) refl
