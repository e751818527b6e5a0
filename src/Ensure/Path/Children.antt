-- ===== src/Ensure/Path/Children.antt =====
-- What counts as a path of a child.
use play.Common.{
  ℕ, ◌+◌, ◌≡◌, refl, sym, ap, ◌∙◌, true, List, [], ◌∷◌, ◌++◌, append-nil, append_assoc, arith,
}
use play.Common.Tests.{le→leb, gt→leb}
use play.Common.Lists.{length, drop, length-append, take_of_append, drop_of_append}
use play.Common.Outcome.{ret, throws}
use play.Common.Map.{bytes_eq, bytes_eq_iff}
use play.Ensure.Path.{slash, is_child_of, substr, get_child_path}

is_child_of-append : (self rest : List ℕ) → is_child_of self (self ++ rest) ≡ true
is_child_of-append self rest =
    ap (λ l. bytes_eq l self) (take_of_append (length self) self rest refl)
    ∙ (bytes_eq_iff self self).1 refl

drop_one_more : (self rest : List ℕ) (c : ℕ) → drop (length self + 1) (self ++ (c ∷ rest)) ≡ rest
drop_one_more self rest c =
    ap (drop (length self + 1)) (sym (append_assoc self (c ∷ []) rest))
    ∙ drop_of_append (length self + 1) (self ++ (c ∷ [])) rest
        (omega (arith, length-append self (c ∷ [])))

child_path : (self rest : List ℕ) (c : ℕ) → get_child_path self (self ++ (c ∷ rest)) ≡ ret rest
unfolding get_child_path substr
child_path self rest c =
    rw
      (
        get_child_path,
        is_child_of-append self (c ∷ rest),
        substr,
        le→leb (length self + 1) (length (self ++ (c ∷ rest)))
            (omega (arith, length-append self (c ∷ rest))),
        drop_one_more self rest c,
      )
      refl

own_path : (self : List ℕ) → get_child_path self self ≡ throws
unfolding get_child_path substr
own_path self =
    let same : is_child_of self self ≡ true =
      ap (is_child_of self) (sym (append-nil self)) ∙ is_child_of-append self [] in
    rw (get_child_path, same, substr, gt→leb (length self + 1) (length self) (omega arith)) refl

-- `get_child_path` of a child's path is the path behind the slash. The path of an act whose name
-- goes on with any other byte counts as a child's too, and loses that byte; and the act's own path
-- counts as a child's and makes it throw.
pub get_child_path_lem :
    (self rest : List ℕ) (c : ℕ)
    → (get_child_path self (self ++ (slash ∷ rest)) ≡ ret rest)
      × (is_child_of self (self ++ (c ∷ rest)) ≡ true)
      × (get_child_path self (self ++ (c ∷ rest)) ≡ ret rest)
      × (is_child_of self self ≡ true)
      × (get_child_path self self ≡ throws)
get_child_path_lem self rest c = (
  child_path self rest slash,
  is_child_of-append self (c ∷ rest),
  child_path self rest c,
  ap (is_child_of self) (sym (append-nil self)) ∙ is_child_of-append self [],
  own_path self,
)
