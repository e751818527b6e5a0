-- ===== src/Base/Snowflake/Unique.antt =====
-- How long the ids of `next` stay distinct, and where they repeat.
use play.Common.{
  ℕ, ◌+◌, ◌*◌, ◌%◌, ◌^◌, ◌≤◌, ◌<◌, ◌≡◌, sym, ◌∙◌, ◌≢◌, List, [], ◌∷◌, arith, length, All,
}
use play.Common.Bits.{bit_and_word, zero-bit_or, bit_or_disjoint, bit_or_comm}
use play.Base.Snowflake.{half, next, run}

half_lem : (elapsed : ℕ) → half elapsed ≡ elapsed % 256 * 2 ^ 24
unfolding half
half_lem elapsed = omega (arith, bit_and_word (elapsed * 2 ^ 24 % 2 ^ 64))

-- While the counter has no more than 24 bits, an id is the counter below eight bits of the clock.
next_id :
    (seq elapsed : ℕ) → seq + 1 < 2 ^ 24 → (next seq elapsed).1 ≡ elapsed % 256 * 2 ^ 24 + (seq + 1)
unfolding next
next_id seq elapsed h =
    let s : (seq + 1) % 2 ^ 32 ≡ seq + 1 = omega arith in
    rw (s, half_lem elapsed, bit_or_comm)
      (bit_or_disjoint 24 (seq + 1) (elapsed % 256) h ∙ omega arith)

-- No id of the list is another one's.
abbrev pub Distinct : List ℕ → Type 0
Distinct [] = Unit {0}
Distinct (x ∷ xs) = All (λ y. x ≢ y) xs × Distinct xs

-- An id whose low 24 bits are not beyond the counter is not returned again.
run_above :
    (seq : ℕ) (ts : List ℕ) (x : ℕ)
    → x % 2 ^ 24 ≤ seq
    → seq + length ts < 2 ^ 24
    → All (λ y. x ≢ y) (run seq ts)
unfolding run
run_above seq [] x h fits = tt
run_above seq (t ∷ ts) x h fits =
    let id : (next seq t).1 ≡ t % 256 * 2 ^ 24 + (seq + 1) = next_id seq t (omega arith) in
    let count : (next seq t).0 ≡ seq + 1 = unfold next in omega arith in
    (omega arith, rw count (run_above (seq + 1) ts x (omega arith) (omega arith)))

-- From any state of the counter, the ids of the next calls are distinct as long as the counter
-- stays below 2 ^ 24, whatever the clock says.
pub run-Distinct : (seq : ℕ) (ts : List ℕ) → seq + length ts < 2 ^ 24 → Distinct (run seq ts)
unfolding run
run-Distinct seq [] fits = tt
run-Distinct seq (t ∷ ts) fits =
    let id : (next seq t).1 ≡ t % 256 * 2 ^ 24 + (seq + 1) = next_id seq t (omega arith) in
    let count : (next seq t).0 ≡ seq + 1 = unfold next in omega arith in
    rw count (
      run_above (seq + 1) ts (next seq t).1 (omega arith) (omega arith),
      run-Distinct (seq + 1) ts (omega arith),
    )

-- An id that is handed out at 1 modulo 256 milliseconds, while the counter is below 2 ^ 24, is
-- handed out again 2 ^ 24 calls later if that is at 0 modulo 256 milliseconds.
pub next_repeats :
    (seq early late : ℕ)
    → seq + 1 < 2 ^ 24
    → early % 256 ≡ 1
    → late % 256 ≡ 0
    → (next (seq + 2 ^ 24) late).1 ≡ (next seq early).1
unfolding next
next_repeats seq early late h one zeroth = next_high ∙ sym (next_id seq early h ∙ omega arith)
  where
    next_high : (next (seq + 2 ^ 24) late).1 ≡ seq + 1 + 2 ^ 24
    next_high =
        let h0 : half late ≡ 0 = omega (arith, half_lem late) in
        let s : (seq + 2 ^ 24 + 1) % 2 ^ 32 ≡ seq + 1 + 2 ^ 24 = omega arith in
        rw (s, h0) (zero-bit_or (seq + 1 + 2 ^ 24))
