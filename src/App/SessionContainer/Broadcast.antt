-- ===== src/App/SessionContainer/Broadcast.antt =====
-- Which sessions a broadcast reaches.
use play.Common.{ℕ, ◌≡◌, refl, ap, ◌∙◌, Bool, true, false, List, [], ◌∷◌, ◌++◌}
use play.Common.Outcome.{Outcome, ret}
use play.Common.Lists.{All}
use play.App.SessionContainer.{SessionContainer, send_each, send_all}

-- The sessions of a list of entries.
abbrev pub values : List (ℕ × ℕ) → List ℕ
values [] = []
values ((key, se) ∷ rest) = se ∷ values rest

module _ (sends : ℕ → Outcome Bool) where
  send_each-false : (entries : List (ℕ × ℕ)) → send_each sends false entries ≡ ret (false, [])
  unfolding send_each
  send_each-false [] = refl
  send_each-false ((key, se) ∷ rest) = send_each-false rest

  pub send_each-All :
      (entries : List (ℕ × ℕ))
      → All (λ e. sends e.1 ≡ ret true) entries
      → send_each sends true entries ≡ ret (true, values entries)
  unfolding send_each
  send_each-All [] h = refl
  send_each-All ((key, se) ∷ rest) (h, hs) = rw (h, send_each-All rest hs) refl

  send_each-stops :
      (front back : List (ℕ × ℕ)) (key se : ℕ)
      → All (λ e. sends e.1 ≡ ret true) front
      → sends se ≡ ret false
      → send_each sends true (front ++ ((key, se) ∷ back)) ≡ ret (false, values front ++ (se ∷ []))
  unfolding send_each
  send_each-stops [] back key se h fails = rw (fails, send_each-false back) refl
  send_each-stops ((k, s) ∷ front) back key se (h, hs) fails =
      rw (h, send_each-stops front back key se hs fails) refl

-- Where the sends of the sessions in front succeed and that of the next one fails, a broadcast fails,
-- and calls no session behind that one.
pub send_all_stops :
    (sends : ℕ → Outcome Bool) (c : SessionContainer) (front back : List (ℕ × ℕ)) (key se : ℕ)
    → c.sessions ≡ front ++ ((key, se) ∷ back)
    → All (λ e. sends e.1 ≡ ret true) front
    → sends se ≡ ret false
    → send_all sends c ≡ ret (false, values front ++ (se ∷ []))
unfolding send_all
send_all_stops sends c front back key se split h fails =
    ap (send_each sends true) split ∙ send_each-stops sends front back key se h fails

-- Where the sends of all sessions succeed, a broadcast calls each of them in the order of their keys,
-- and succeeds.
pub send_all_reaches :
    (sends : ℕ → Outcome Bool) (c : SessionContainer)
    → All (λ e. sends e.1 ≡ ret true) c.sessions
    → send_all sends c ≡ ret (true, values c.sessions)
unfolding send_all
send_all_reaches sends c h = send_each-All sends c.sessions h
