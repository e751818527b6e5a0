-- ===== src/Net/Server/Lost.antt =====
-- Sessions are kept before they are started, when all of them have the handle 0.
use play.Common.{ℕ, ◌<◌, ◌≡◌, refl, ap, ◌∙◌, false, none, some, List, [], ◌∷◌, arith, ◌==◌, All}
use play.Common.Map.{find, place, insert, erase, nat_key}
use play.Net.Server.{
  Server, init, get_session, on_closed, handle_accept, Act, accepts, closes, act, run,
}

-- A native handle is not 0.
abbrev IsReal : Act → Type 0
IsReal (accepts address native) = 0 < native
IsReal (closes address native) = 0 < native

abbrev KeepsOnly : ℕ → Server → Type 0
KeepsOnly first s = s.sessions ≡ (0, first) ∷ []

act-KeepsOnly :
    (first : ℕ) (a : Act) (s : Server) → IsReal a → KeepsOnly first s → KeepsOnly first (act a s)
unfolding act handle_accept on_closed insert find erase
act-KeepsOnly first (accepts address native) s real kept = rw (kept) refl
act-KeepsOnly first (closes address native) s real kept =
    let other : (0 == native) ≡ false = ground arith in ap (erase native) kept ∙ rw (other) refl

run-KeepsOnly :
    (first : ℕ) (acts : List Act) (s : Server)
    → All IsReal acts
    → KeepsOnly first s
    → KeepsOnly first (run acts s)
unfolding run
run-KeepsOnly first [] s real kept = kept
run-KeepsOnly first (a ∷ acts) s (now, real) kept =
    run-KeepsOnly first acts (act a s) real (act-KeepsOnly first a s now kept)

first-KeepsOnly : (first native : ℕ) → KeepsOnly first (act (accepts first native) init)
unfolding act handle_accept insert find place
first-KeepsOnly first native = refl

-- Whatever sessions a server accepts and closes, once it accepted one it finds none by a native
-- handle, and it keeps the first one, closed or not. The native handles are not 0.
pub get_session-run :
    (first native handle : ℕ) (acts : List Act)
    → All IsReal acts
    → 0 < handle
    → (get_session handle (run (accepts first native ∷ acts) init) ≡ none)
      × (get_session 0 (run (accepts first native ∷ acts) init) ≡ some first)
unfolding run get_session find
get_session-run first native handle acts real positive =
    let kept =
      run-KeepsOnly first acts (act (accepts first native) init) real
        (first-KeepsOnly first native) in
    let other : (0 == handle) ≡ false = ground arith in
    (ap (find handle) kept ∙ rw (other) refl, ap (find 0) kept)
