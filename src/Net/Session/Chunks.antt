-- ===== src/Net/Session/Chunks.antt =====
-- However the bytes of a stream are cut into chunks, the same frames are received.
use play.Net.Session.Receive.{Received, recv_loop, recv_frames, feed}
use play.Common.{
  ℕ, zero, suc, ◌≤◌, ◌<◌, ◌≡◌, refl, sym, ap, subst, ◌∙◌, ◌⊎◌, inl, inr, false, List, [], ◌∷◌, ◌++◌,
  append-nil, append_assoc, arith, ltb, ltb→lt, lt→ltb, Bool-cases, length, drop, concat,
  length-append, length-drop, drop-append_le,
}
use play.Common.Outcome.{
  Outcome, ret, aborts, ◌>>◌, Build, debug, release, play_check, play_check-true, play_check-cases,
  play_check-passed, play_check-failed, ret-injective,
}
use play.Net.Protocol.{Decoded, Streams}

module _ {S : Type 0} (m : Build) (Ready : S → Type 0) (decode : S → List ℕ → Outcome (S × Decoded))
    (law : Streams Ready decode) where
  -- The check on a frame that was taken.
  passes : Decoded → Outcome (Unit {0})
  passes d = play_check m (ltb 0 (length d.frame))

  -- The ways that a round goes.
  data Round (s : S) (buf : List ℕ) : Type 0 where
    takes :
        (s' : S) (d : Decoded)
        → decode s buf ≡ ret (s', d)
        → 0 < d.consumed
        → d.consumed ≤ length buf
        → passes d ≡ ret tt
        → Ready s'
        → Round s buf
    ends :
        (s' : S) (d : Decoded)
        → decode s buf ≡ ret (s', d)
        → 0 < d.consumed
        → d.consumed ≤ length buf
        → passes d ≡ aborts
        → Round s buf
    waits : (d : Decoded) → decode s buf ≡ ret (s, d) → ltb 0 d.consumed ≡ false → Round s buf

  Round-decode :
      (s s' : S) (buf : List ℕ) (d : Decoded)
      → Ready s
      → decode s buf ≡ ret (s', d)
      → Ready s'
      → Round s buf
  unfolding passes
  Round-decode s s' buf d v e v' = elim (Bool-cases (ltb 0 d.consumed)) [
    | inl pos ↦
        let some_bytes = ltb→lt 0 d.consumed pos in
        let le = law.takes s s' buf d v e some_bytes in
        elim (play_check-cases m (ltb 0 (length d.frame))) [
          | inl good ↦ takes s' d e some_bytes le good v'
          | inr bad ↦ ends s' d e some_bytes le bad
        ]
    | inr stop ↦
        let same : s' ≡ s = law.waits s s' buf d v e (ground arith) in
        waits d (subst (λ t. decode s buf ≡ ret (t, d)) same e) stop
  ]

  round : (s : S) (buf : List ℕ) → Ready s → Round s buf
  round s buf v = let r = law.returns s buf v in Round-decode s r.0.0 buf r.0.1 v r.1 r.2

  loop_decodes :
      (fuel : ℕ) (s s' : S) (buf : List ℕ) (frames : List (ℕ × List ℕ)) (d : Decoded)
      → decode s buf ≡ ret (s', d)
      → 0 < d.consumed
      → d.consumed ≤ length buf
      → recv_loop m decode (suc fuel) s buf frames ≡ (
          passes d
          >> recv_loop m decode fuel s' (drop d.consumed buf) (frames ++ ((d.topic, d.frame) ∷ [])))
  unfolding recv_loop passes
  loop_decodes fuel s s' [] frames d e pos le = absurd (omega arith)
  loop_decodes fuel s s' (b ∷ bs) frames d e pos le =
      rw (recv_loop, e, lt→ltb 0 d.consumed pos) refl

  loop_takes :
      (fuel : ℕ) (s s' : S) (buf : List ℕ) (frames : List (ℕ × List ℕ)) (d : Decoded)
      → decode s buf ≡ ret (s', d)
      → 0 < d.consumed
      → d.consumed ≤ length buf
      → passes d ≡ ret tt
      → recv_loop m decode (suc fuel) s buf frames
        ≡ recv_loop m decode fuel s' (drop d.consumed buf) (frames ++ ((d.topic, d.frame) ∷ []))
  loop_takes fuel s s' buf frames d e pos le good =
      loop_decodes fuel s s' buf frames d e pos le ∙ rw (good) refl

  loop_ends :
      (fuel : ℕ) (s s' : S) (buf : List ℕ) (frames : List (ℕ × List ℕ)) (d : Decoded)
      → decode s buf ≡ ret (s', d)
      → 0 < d.consumed
      → d.consumed ≤ length buf
      → passes d ≡ aborts
      → recv_loop m decode (suc fuel) s buf frames ≡ aborts
  loop_ends fuel s s' buf frames d e pos le bad =
      loop_decodes fuel s s' buf frames d e pos le ∙ rw (bad) refl

  loop_waits :
      (fuel : ℕ) (s : S) (buf : List ℕ) (frames : List (ℕ × List ℕ)) (d : Decoded)
      → decode s buf ≡ ret (s, d)
      → ltb 0 d.consumed ≡ false
      → recv_loop m decode (suc fuel) s buf frames
        ≡ ret (record { state = s; frames = frames; rest = buf; failed = false })
  unfolding recv_loop
  loop_waits fuel s [] frames d e stop = refl
  loop_waits fuel s (b ∷ bs) frames d e stop = rw (recv_loop, e, stop)

  -- More fuel than bytes is enough fuel.
  loop_fuel :
      (f g : ℕ) (s : S) (buf : List ℕ) (frames : List (ℕ × List ℕ))
      → Ready s
      → length buf < f
      → length buf < g
      → recv_loop m decode f s buf frames ≡ recv_loop m decode g s buf frames
  loop_fuel zero g s buf frames v hf hg = absurd (omega arith)
  loop_fuel (suc f) zero s buf frames v hf hg = absurd (omega arith)
  loop_fuel (suc f) (suc g) s buf frames v hf hg = elim (round s buf v) [
    | ends s' d e pos le bad ↦
        loop_ends f s s' buf frames d e pos le bad
        ∙ sym (loop_ends g s s' buf frames d e pos le bad)
    | takes s' d e pos le full v' ↦
        loop_takes f s s' buf frames d e pos le full
        ∙ loop_fuel f g s' (drop d.consumed buf) (frames ++ ((d.topic, d.frame) ∷ [])) v'
            (omega (arith, length-drop d.consumed buf)) (omega (arith, length-drop d.consumed buf))
        ∙ sym (loop_takes g s s' buf frames d e pos le full)
    | waits d e stop ↦ loop_waits f s buf frames d e stop ∙ sym (loop_waits g s buf frames d e stop)
  ]

  -- The bytes hold no whole frame.
  abbrev pub Waits : S → List ℕ → Type 0
  Waits s buf = (d : Decoded) × (decode s buf ≡ ret (s, d)) × (d.consumed ≡ 0)

  -- Receiving `buf` ends well in `r`, and with more bytes behind it goes on from `r`.
  abbrev Resumes : S → List ℕ → List (ℕ × List ℕ) → Received S → Type 0
  Resumes s buf frames r =
      (recv_frames m decode s buf frames ≡ ret r)
      × (r.failed ≡ false)
      × Ready r.state
      × Waits r.state r.rest
      × ((more : List ℕ)
          → recv_frames m decode s (buf ++ more) frames
            ≡ recv_frames m decode r.state (r.rest ++ more) r.frames)

  -- Receiving `buf` ends the program, with more bytes behind it too.
  abbrev Dies : S → List ℕ → List (ℕ × List ℕ) → Type 0
  Dies s buf frames =
      (recv_frames m decode s buf frames ≡ aborts)
      × ((more : List ℕ) → recv_frames m decode s (buf ++ more) frames ≡ aborts)

  Resumes-waits :
      (s : S) (buf : List ℕ) (frames : List (ℕ × List ℕ)) (d : Decoded)
      → Ready s
      → decode s buf ≡ ret (s, d)
      → ltb 0 d.consumed ≡ false
      → Resumes s buf frames (record { state = s; frames = frames; rest = buf; failed = false })
  unfolding recv_frames
  Resumes-waits s buf frames d v e stop =
      (loop_waits (length buf) s buf frames d e stop, refl, v, (d, e, ground arith), λ more. refl)

  Dies-ends :
      (s s' : S) (buf : List ℕ) (frames : List (ℕ × List ℕ)) (d : Decoded)
      → Ready s
      → decode s buf ≡ ret (s', d)
      → 0 < d.consumed
      → d.consumed ≤ length buf
      → passes d ≡ aborts
      → Dies s buf frames
  unfolding recv_frames
  Dies-ends s s' buf frames d v e pos le bad = (
    loop_ends (length buf) s s' buf frames d e pos le bad,
    λ more.
        loop_ends (length (buf ++ more)) s s' (buf ++ more) frames d
          (law.stays s s' buf more d v e pos) pos (omega (arith, length-append buf more)) bad,
  )

  takes_before :
      (s s' : S) (buf more : List ℕ) (frames : List (ℕ × List ℕ)) (d : Decoded)
      → Ready s
      → decode s buf ≡ ret (s', d)
      → 0 < d.consumed
      → d.consumed ≤ length buf
      → passes d ≡ ret tt
      → Ready s'
      → recv_frames m decode s (buf ++ more) frames
        ≡ recv_frames m decode s'
            (drop d.consumed buf ++ more)
            (frames ++ ((d.topic, d.frame) ∷ []))
  unfolding recv_frames
  takes_before s s' buf more frames d v e pos le good v' =
      let size = length-append buf more in
      loop_takes (length (buf ++ more)) s s' (buf ++ more) frames d
        (law.stays s s' buf more d v e pos) pos (omega (arith, size)) good
      ∙ ap
          (λ t.
            recv_loop m decode (length (buf ++ more)) s' t (frames ++ ((d.topic, d.frame) ∷ [])))
          (drop-append_le d.consumed buf more le)
      ∙ loop_fuel _ _ s' (drop d.consumed buf ++ more) (frames ++ ((d.topic, d.frame) ∷ [])) v'
          (omega
            (arith, size, length-append (drop d.consumed buf) more, length-drop d.consumed buf))
          (omega arith)

  -- A frame in front is taken with or without the bytes behind it.
  pub frames_takes :
      (s s' : S) (buf more : List ℕ) (frames : List (ℕ × List ℕ)) (d : Decoded)
      → Ready s
      → decode s buf ≡ ret (s', d)
      → 0 < d.consumed
      → d.consumed ≤ length buf
      → 0 < length d.frame
      → recv_frames m decode s (buf ++ more) frames
        ≡ recv_frames m decode s'
            (drop d.consumed buf ++ more)
            (frames ++ ((d.topic, d.frame) ∷ []))
  unfolding passes
  frames_takes s s' buf more frames d v e pos le full =
      let r = law.returns s buf v in
      let v' : Ready s' = subst (λ t. Ready t) (ap (λ t. t.0) (ret-injective (sym r.1 ∙ e))) r.2 in
      takes_before s s' buf more frames d v e pos le
        (rw (lt→ltb 0 (length d.frame) full) (play_check-true m)) v'

  resumes :
      (n : ℕ) (s : S) (buf : List ℕ) (frames : List (ℕ × List ℕ))
      → Ready s
      → length buf < n
      → ((r : Received S) × Resumes s buf frames r) ⊎ Dies s buf frames
  resumes zero s buf frames v h = absurd (omega arith)
  resumes (suc n) s buf frames v h = elim (round s buf v) [
    | ends s' d e pos le bad ↦ inr (Dies-ends s s' buf frames d v e pos le bad)
    | takes s' d e pos le good v' ↦
        let here = λ (more : List ℕ). takes_before s s' buf more frames d v e pos le good v' in
        let first : recv_frames m decode s buf frames
            ≡ recv_frames m decode s' (drop d.consumed buf) (frames ++ ((d.topic, d.frame) ∷ [])) =
          ap (λ t. recv_frames m decode s t frames) (sym (append-nil buf))
          ∙ here []
          ∙ ap (λ t. recv_frames m decode s' t (frames ++ ((d.topic, d.frame) ∷ [])))
              (append-nil (drop d.consumed buf)) in
        elim (resumes n s' (drop d.consumed buf) (frames ++ ((d.topic, d.frame) ∷ [])) v'
          (omega (arith, length-drop d.consumed buf))) [
            | inl (r, (e', ok, w, at_end, more_from)) ↦
                inl (r, (first ∙ e', ok, w, at_end, λ more. here more ∙ more_from more))
            | inr (e', dies) ↦ inr (first ∙ e', λ more. here more ∙ dies more)
          ]
    | waits d e stop ↦ inl (_, Resumes-waits s buf frames d v e stop)
  ]

  -- The frames that the loop takes from the front of some bytes: each is a frame that `decode` finds
  -- there, and none is empty in a build with assertions.
  pub data Taken : S → List ℕ → S → List ℕ → Type 0 where
    none_taken : (s : S) (buf : List ℕ) → Taken s buf s buf
    frame_taken :
        (s s' t : S) (buf rest : List ℕ) (d : Decoded)
        → decode s buf ≡ ret (s', d)
        → 0 < d.consumed
        → (0 < length d.frame) ⊎ (m ≡ release)
        → Taken s' (drop d.consumed buf) t rest
        → Taken s buf t rest

  -- `decode` finds an empty frame in the bytes, in a build with assertions.
  pub record Empty (s : S) (buf : List ℕ) : Type 0 where
    pub state : S
    pub found : Decoded
    pub decodes : decode s buf ≡ ret (state, found)
    pub consumes : 0 < found.consumed
    pub is_empty : length found.frame ≡ 0
    pub checked : m ≡ debug

  -- How receiving some bytes ends.
  abbrev Ended : S → List ℕ → List (ℕ × List ℕ) → Type 0
  Ended s buf frames =
      ((r : Received S) × (recv_frames m decode s buf frames ≡ ret r)
        × (r.failed ≡ false)
        × Ready r.state
        × Taken s buf r.state r.rest
        × Waits r.state r.rest)
      ⊎ ((recv_frames m decode s buf frames ≡ aborts)
          × ((t : S) × (rest : List ℕ) × Taken s buf t rest × Empty t rest))

  passes-full : (d : Decoded) → passes d ≡ ret tt → (0 < length d.frame) ⊎ (m ≡ release)
  unfolding passes
  passes-full d e = elim (play_check-passed m (ltb 0 (length d.frame)) e) [
    | inl full ↦ inl (ltb→lt 0 (length d.frame) full)
    | inr off ↦ inr off
  ]

  passes-empty : (d : Decoded) → passes d ≡ aborts → (length d.frame ≡ 0) × (m ≡ debug)
  unfolding passes
  passes-empty d e =
      let (empty, on) = play_check-failed m (ltb 0 (length d.frame)) e in
      (ground (arith, empty), on)

  takes_here :
      (s s' : S) (buf : List ℕ) (frames : List (ℕ × List ℕ)) (d : Decoded)
      → Ready s
      → decode s buf ≡ ret (s', d)
      → 0 < d.consumed
      → d.consumed ≤ length buf
      → passes d ≡ ret tt
      → Ready s'
      → recv_frames m decode s buf frames
        ≡ recv_frames m decode s' (drop d.consumed buf) (frames ++ ((d.topic, d.frame) ∷ []))
  takes_here s s' buf frames d v e pos le good v' =
      ap (λ t. recv_frames m decode s t frames) (sym (append-nil buf))
      ∙ takes_before s s' buf [] frames d v e pos le good v'
      ∙ ap (λ t. recv_frames m decode s' t (frames ++ ((d.topic, d.frame) ∷ [])))
          (append-nil (drop d.consumed buf))

  ended :
      (n : ℕ) (s : S) (buf : List ℕ) (frames : List (ℕ × List ℕ))
      → Ready s
      → length buf < n
      → Ended s buf frames
  ended zero s buf frames v h = absurd (omega arith)
  ended (suc n) s buf frames v h = elim (round s buf v) [
    | ends s' d e pos le bad ↦
        let (empty, on) = passes-empty d bad in
        inr (
          (Dies-ends s s' buf frames d v e pos le bad).0,
          (
            s,
            buf,
            none_taken s buf,
            record {
              state = s';
              found = d;
              decodes = e;
              consumes = pos;
              is_empty = empty;
              checked = on;
            },
          ),
        )
    | takes s' d e pos le good v' ↦
        let here = takes_here s s' buf frames d v e pos le good v' in
        let took =
          λ (t : S) (rest : List ℕ). frame_taken s s' t buf rest d e pos (passes-full d good) in
        elim (ended n s' (drop d.consumed buf) (frames ++ ((d.topic, d.frame) ∷ [])) v'
          (omega (arith, length-drop d.consumed buf))) [
            | inl (r, e', ok, w, more, at_end) ↦
                inl (r, here ∙ e', ok, w, took r.state r.rest more, at_end)
            | inr (e', (t, rest, more, empty)) ↦ inr (here ∙ e', (t, rest, took t rest more, empty))
          ]
    | waits d e stop ↦
        let (e', ok, w, at_end, _) = Resumes-waits s buf frames d v e stop in
        inl (_, e', ok, w, none_taken s buf, at_end)
  ]

  -- For a decoder that works on a stream, from a state that it works in, the loop of `recv_frames`
  -- takes frames from the front, none of them empty in a build with assertions. Then it ends because
  -- the bytes that are left hold no whole frame, and no exception was caught; or the program ends in
  -- the check on a frame, in a build with assertions, because the next frame is empty.
  pub recv_frames-Waits :
      (s : S) (buf : List ℕ) (frames : List (ℕ × List ℕ))
      → Ready s
      → ((r : Received S) × (recv_frames m decode s buf frames ≡ ret r)
          × (r.failed ≡ false)
          × Ready r.state
          × Taken s buf r.state r.rest
          × Waits r.state r.rest)
        ⊎ ((recv_frames m decode s buf frames ≡ aborts)
            × ((t : S) × (rest : List ℕ) × Taken s buf t rest × Empty t rest))
  recv_frames-Waits s buf frames v = ended (suc (length buf)) s buf frames v (omega arith)

  feed_dies :
      (s : S) (buf : List ℕ) (frames : List (ℕ × List ℕ)) (c : List ℕ) (cs : List (List ℕ))
      → recv_frames m decode s (buf ++ c) frames ≡ aborts
      → feed m decode s buf frames (c ∷ cs) ≡ aborts
  unfolding feed
  feed_dies s buf frames c cs e = rw (feed, e) refl

  feed_resumes :
      (s : S) (buf : List ℕ) (frames : List (ℕ × List ℕ)) (c : List ℕ) (cs : List (List ℕ))
      (r : Received S)
      → recv_frames m decode s (buf ++ c) frames ≡ ret r
      → r.failed ≡ false
      → feed m decode s buf frames (c ∷ cs) ≡ feed m decode r.state r.rest r.frames cs
  unfolding feed
  feed_resumes s buf frames c cs r e ok = rw (feed, e, ok) refl

  feed_nothing :
      (r : Received S) → r.failed ≡ false → feed m decode r.state r.rest r.frames [] ≡ ret r
  unfolding feed
  feed_nothing r ok =
      λ i. ret (record { state = r.state; frames = r.frames; rest = r.rest; failed = sym ok i })

  -- For a decoder that works on a stream, from a state that it works in, feeding chunk by chunk is
  -- receiving all of the bytes at once: the same state, frames and rest, the same flag, and the
  -- same end of the program.
  pub feed-concat :
      (s : S) (buf : List ℕ) (frames : List (ℕ × List ℕ)) (c : List ℕ) (cs : List (List ℕ))
      → Ready s
      → feed m decode s buf frames (c ∷ cs) ≡ recv_frames m decode s (buf ++ concat (c ∷ cs)) frames
  feed-concat s buf frames c [] v =
      elim (resumes (suc (length (buf ++ c))) s (buf ++ c) frames v (omega arith)) [
        | inr (e, dies) ↦
            feed_dies s buf frames c [] e
            ∙ sym e
            ∙ ap (λ t. recv_frames m decode s (buf ++ t) frames) (sym (append-nil c))
        | inl (r, (e, ok, w, at_end, more_from)) ↦
            feed_resumes s buf frames c [] r e ok
            ∙ feed_nothing r ok
            ∙ sym e
            ∙ ap (λ t. recv_frames m decode s (buf ++ t) frames) (sym (append-nil c))
      ]
  feed-concat s buf frames c (c' ∷ cs) v =
      elim (resumes (suc (length (buf ++ c))) s (buf ++ c) frames v (omega arith)) [
        | inr (e, dies) ↦
            feed_dies s buf frames c (c' ∷ cs) e
            ∙ sym (dies (concat (c' ∷ cs)))
            ∙ ap (λ t. recv_frames m decode s t frames) (append_assoc buf c (concat (c' ∷ cs)))
        | inl (r, (e, ok, w, at_end, more_from)) ↦
            feed_resumes s buf frames c (c' ∷ cs) r e ok
            ∙ feed-concat r.state r.rest r.frames c' cs w
            ∙ sym (more_from (concat (c' ∷ cs)))
            ∙ ap (λ t. recv_frames m decode s t frames) (append_assoc buf c (concat (c' ∷ cs)))
      ]
