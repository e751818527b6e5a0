-- ===== src/Ensure/Acts/Serial.antt =====
-- A serial runs one of its acts at a time.
use native.Mathlib.Decide.{dec_lt}
use play.Common.{ℕ, ◌+◌, ◌<◌, ◌≡◌, refl, ◌⊎◌, inl, inr, some, List, arith}
use play.Common.Tests.{lt→ltb, le→leb, gt→leb}
use play.Common.Lists.{length, get_elem?}
use play.Common.Outcome.{ret, ◌>>=◌, Build, play_check-true}
use play.Ensure.Acts.{
  ActEnsure, activate, deactivate, update_at, ActSerial, get_act, get_current_act, next,
}
use play.Ensure.Acts.Only.{
  NoneActive, OnlyActive, length-update_at, get_elem_here, get_elem_in_range, deactivate-NoneActive,
  activate-OnlyActive, activate_ready,
}

-- The current act is there, and no other act is active.
abbrev pub IsSerial : ActSerial → Type 0
IsSerial s = (s.current_act_index < length s.acts) × OnlyActive s.current_act_index s.acts

get_current_act_ret :
    (m : Build) (acts : List ActEnsure) (i : ℕ) (a : ActEnsure)
    → i < length acts
    → get_elem? acts i ≡ some a
    → get_current_act m acts i ≡ ret a
unfolding get_current_act get_act
get_current_act_ret m acts i a h e =
    rw (get_current_act, lt→ltb i (length acts) h, play_check-true m, get_act, e) refl

-- The act at an index in place of the current one.
abbrev switched : ActSerial → ℕ → ActSerial
switched s i = record {
  acts = update_at activate i (update_at deactivate s.current_act_index s.acts);
  current_act_index = i;
}

switched-IsSerial :
    (s : ActSerial) (i : ℕ) → IsSerial s → i < length s.acts → IsSerial (switched s i)
switched-IsSerial s i (h, only) hi =
    let (a, there) = get_elem_in_range s.acts s.current_act_index h in
    (
      omega (
        arith,
        length-update_at activate i (update_at deactivate s.current_act_index s.acts),
        length-update_at deactivate s.current_act_index s.acts,
      ),
      activate-OnlyActive i (update_at deactivate s.current_act_index s.acts)
          (deactivate-NoneActive s.current_act_index s.acts a there only),
    )

-- The act at the index is in `t` as `s` has it, but active if its `on_activate` says so.
abbrev pub IsStarted : ActSerial → ℕ → ActSerial → Type 0
IsStarted s i t =
    (b c : ActEnsure) × (get_elem? (update_at deactivate s.current_act_index s.acts) i ≡ some b)
    × (get_elem? t.acts i ≡ some c)
    × (c.active ≡ b.ready)

switched-IsStarted :
    (s : ActSerial) (i : ℕ) → IsSerial s → i < length s.acts → IsStarted s i (switched s i)
switched-IsStarted s i (h, only) hi =
    let (a, there) = get_elem_in_range s.acts s.current_act_index h in
    let before = update_at deactivate s.current_act_index s.acts in
    let (b, at_i) =
      get_elem_in_range before i
        (omega (arith, length-update_at deactivate s.current_act_index s.acts)) in
    (
      b,
      activate b,
      at_i,
      get_elem_here activate i before b at_i,
      activate_ready b (deactivate-NoneActive s.current_act_index s.acts a there only i b at_i),
    )

switch_ret :
    (m : Build) (s : ActSerial) (i : ℕ)
    → i < length s.acts
    → (get_current_act m (update_at deactivate s.current_act_index s.acts) i
        >>= (λ b. ret (switched s i)))
      ≡ ret (switched s i)
switch_ret m s i hi =
    let before = update_at deactivate s.current_act_index s.acts in
    let size = length-update_at deactivate s.current_act_index s.acts in
    let (b, at_i) = get_elem_in_range before i (omega (arith, size)) in
    rw (get_current_act_ret m before i b (omega (arith, size)) at_i) refl

next_switches :
    (m : Build) (s : ActSerial)
    → s.current_act_index + 1 < length s.acts
    → next m s ≡ ret (switched s (s.current_act_index + 1))
unfolding next
next_switches m s more =
    let i = s.current_act_index in
    let size = length-update_at deactivate i s.acts in
    let (a, there) = get_elem_in_range s.acts i (omega arith) in
    rw
      (
        next,
        get_current_act_ret m s.acts i a (omega arith) there,
        gt→leb (length (update_at deactivate i s.acts)) (i + 1) (omega (arith, size)),
      )
      (switch_ret m s (i + 1) more)

next_stops :
    (m : Build) (s : ActSerial)
    → s.current_act_index + 1 ≡ length s.acts
    → next m s ≡ ret (record s { acts = update_at deactivate s.current_act_index s.acts })
unfolding next
next_stops m s last =
    let i = s.current_act_index in
    let size = length-update_at deactivate i s.acts in
    let (a, there) = get_elem_in_range s.acts i (omega arith) in
    rw
      (
        next,
        get_current_act_ret m s.acts i a (omega arith) there,
        le→leb (length (update_at deactivate i s.acts)) (i + 1) (omega (arith, size)),
      )
      refl

-- `next` returns. Where the current act is not the last, the act behind it becomes the current one,
-- is active if its `on_activate` said so, and no other is. At the last act, that stays the current
-- one and no act is active.
pub next-IsSerial :
    (m : Build) (s : ActSerial)
    → IsSerial s
    → (s' : ActSerial) × (next m s ≡ ret s')
      × (((s.current_act_index + 1 < length s.acts)
            × IsSerial s'
            × (s'.current_act_index ≡ s.current_act_index + 1)
            × IsStarted s (s.current_act_index + 1) s')
          ⊎ ((s.current_act_index + 1 ≡ length s.acts)
              × (s'.current_act_index ≡ s.current_act_index)
              × NoneActive s'.acts))
next-IsSerial m s (h, only) = elim (dec_lt (s.current_act_index + 1) (length s.acts)) [
  | yes more ↦ (
    switched s (s.current_act_index + 1),
    next_switches m s more,
    inl (
      more,
      switched-IsSerial s (s.current_act_index + 1) (h, only) more,
      refl,
      switched-IsStarted s (s.current_act_index + 1) (h, only) more,
    ),
  )
  | no last ↦
      let (a, there) = get_elem_in_range s.acts s.current_act_index h in
      let all : s.current_act_index + 1 ≡ length s.acts = omega arith in
      (
        record s { acts = update_at deactivate s.current_act_index s.acts },
        next_stops m s all,
        inr (all, refl, deactivate-NoneActive s.current_act_index s.acts a there only),
      )
]
