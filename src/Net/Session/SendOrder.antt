-- ===== src/Net/Session/SendOrder.antt =====
-- In what order the bytes that are sent reach the socket.
use play.Common.{
  ℕ, ◌≡◌, refl, sym, ap, subst, ◌∙◌, Bool, true, false, not, Option, none, some, List, [], ◌∷◌,
  ◌++◌, append-nil, append_assoc, if◌then◌else◌, length, take, take_of_append, drop_of_append,
  take_all, drop_all,
}
use play.Common.Outcome.{Outcome, ret, ◌>>=◌, Build, debug, release, play_check, ret-injective}
use play.Net.Session.Send.{Sender, init, send_buf, send, handle_send}

-- The sender, the bytes of the `async_send` that is not complete, those that the socket has taken,
-- and all bytes that were given to `send`.
pub record Link : Type 0 where
  pub sender : Sender
  pub issued : List ℕ
  pub taken : List ℕ
  pub written : List ℕ

pub data Action : Type 0 where
  writes : List ℕ → Action
  completes : ℕ → Action

-- The bytes on their way, and those that wait behind them.
abbrev pub in_flight : Sender → List ℕ
in_flight s = if s.sending then send_buf s (not s.acc_buf_index) else []

abbrev pub waiting : Sender → List ℕ
waiting s = send_buf s s.acc_buf_index

-- What an operation gives to `async_send`, and else what was given to it before.
abbrev pub given : List ℕ → Option (List ℕ) → List ℕ
given before none = before
given before (some bytes) = bytes

-- The socket completes with a number of bytes: it takes those from the front of what `async_send`
-- was given, which is complete then.
unfoldable pub act : Build → Link → Action → Outcome Link
act m l (writes bytes) = do
  r ← send m true l.sender bytes
  ret (record l { sender = r.0; issued = given l.issued r.1; written = l.written ++ bytes })
act m l (completes n) = do
  r ← handle_send m l.sender n
  ret (record l { sender = r.0; issued = given [] r.1; taken = l.taken ++ take n l.issued })

-- Every completion is of all that `async_send` was given, and there is one to complete.
abbrev pub IsFull : Link → Action → Type 0
IsFull l (writes bytes) = Unit {0}
IsFull l (completes n) = (l.sender.sending ≡ true) × (n ≡ length l.issued)

-- What `async_send` was given is the buffer that does not collect. Nothing waits unless something is
-- on its way, and nothing is lost or overtaken.
pub record Inv (l : Link) : Type 0 where
  pub issues : l.issued ≡ in_flight l.sender
  pub idle : l.sender.sending ≡ false → (l.sender.first ≡ []) × (l.sender.second ≡ [])
  pub order : l.taken ++ (in_flight l.sender ++ waiting l.sender) ≡ l.written

abbrev Keeps : Build → Link → Action → Type 0
Keeps m l a = (l' : Link) × (act m l a ≡ ret l') × Inv l'

-- A sender by its fields, whose buffer that does not collect is the one that was issued.
abbrev pub link : Bool → Bool → List ℕ → List ℕ → List ℕ → List ℕ → Link
link sending index first second taken written = record {
  sender = record { sending = sending; acc_buf_index = index; first = first; second = second };
  issued = if sending then (if index then first else second) else [];
  taken = taken;
  written = written;
}

order_end :
    (taken rest written bytes : List ℕ)
    → taken ++ rest ≡ written
    → taken ++ (rest ++ bytes) ≡ written ++ bytes
order_end taken rest written bytes e = sym (append_assoc taken rest bytes) ∙ ap (λ l. l ++ bytes) e

writes_busy :
    (m : Build) (i : Bool) (a b taken written bytes : List ℕ)
    → Inv (link true i a b taken written)
    → Keeps m (link true i a b taken written) (writes bytes)
unfolding act send
writes_busy m false a b taken written bytes inv = (
  _,
  refl,
  record {
    issues = refl;
    idle = λ e. cc;
    order =
        ap (◌++◌ taken) (sym (append_assoc b a bytes))
        ∙ order_end taken (b ++ a) written bytes inv.order;
  },
)
writes_busy m true a b taken written bytes inv = (
  _,
  refl,
  record {
    issues = refl;
    idle = λ e. cc;
    order =
        ap (◌++◌ taken) (sym (append_assoc a b bytes))
        ∙ order_end taken (a ++ b) written bytes inv.order;
  },
)

order_start :
    (taken written bytes : List ℕ)
    → taken ++ [] ≡ written
    → taken ++ (bytes ++ []) ≡ written ++ bytes
order_start taken written bytes e =
    ap (◌++◌ taken) (append-nil bytes) ∙ order_end taken [] written bytes e

-- An idle sender starts at once, unless there is nothing to send.
writes_idle :
    (m : Build) (i : Bool) (taken written bytes : List ℕ)
    → taken ++ [] ≡ written
    → Keeps m (link false i [] [] taken written) (writes bytes)
unfolding act send play_check
writes_idle debug false taken written [] e = (
  _,
  refl,
  record { issues = refl; idle = λ _. (refl, refl); order = order_end taken [] written [] e },
)
writes_idle debug false taken written (x ∷ bytes) e = (
  _,
  refl,
  record { issues = refl; idle = λ h. cc; order = order_start taken written (x ∷ bytes) e },
)
writes_idle debug true taken written [] e = (
  _,
  refl,
  record { issues = refl; idle = λ _. (refl, refl); order = order_end taken [] written [] e },
)
writes_idle debug true taken written (x ∷ bytes) e = (
  _,
  refl,
  record { issues = refl; idle = λ h. cc; order = order_start taken written (x ∷ bytes) e },
)
writes_idle release false taken written [] e = (
  _,
  refl,
  record { issues = refl; idle = λ _. (refl, refl); order = order_end taken [] written [] e },
)
writes_idle release false taken written (x ∷ bytes) e = (
  _,
  refl,
  record { issues = refl; idle = λ h. cc; order = order_start taken written (x ∷ bytes) e },
)
writes_idle release true taken written [] e = (
  _,
  refl,
  record { issues = refl; idle = λ _. (refl, refl); order = order_end taken [] written [] e },
)
writes_idle release true taken written (x ∷ bytes) e = (
  _,
  refl,
  record { issues = refl; idle = λ h. cc; order = order_start taken written (x ∷ bytes) e },
)

order_taken :
    (taken sent rest written : List ℕ)
    → taken ++ (sent ++ rest) ≡ written
    → (taken ++ take (length sent) sent) ++ rest ≡ written
order_taken taken sent rest written e = rw (take_all sent) (append_assoc taken sent rest ∙ e)

-- A full completion empties one buffer and starts the other, if there is something in it.
completes_lem :
    (m : Build) (i : Bool) (sent next taken written : List ℕ)
    → taken ++ (sent ++ next) ≡ written
    → let l = link true i (if i then sent else next) (if i then next else sent) taken written in
      Keeps m l (completes (length sent))
unfolding act handle_send play_check
completes_lem debug false sent [] taken written e = (
  link false false [] [] (taken ++ take (length sent) sent) written,
  rw (drop_all sent),
  record { issues = refl; idle = λ _. (refl, refl); order = order_taken taken sent [] written e },
)
completes_lem debug false sent (x ∷ next) taken written e = (
  link true true (x ∷ next) [] (taken ++ take (length sent) sent) written,
  rw (drop_all sent),
  record {
    issues = refl;
    idle = λ h. cc;
    order =
        ap (λ t. (taken ++ take (length sent) sent) ++ t) (append-nil (x ∷ next))
        ∙ order_taken taken sent (x ∷ next) written e;
  },
)
completes_lem debug true sent [] taken written e = (
  link false true [] [] (taken ++ take (length sent) sent) written,
  rw (drop_all sent),
  record { issues = refl; idle = λ _. (refl, refl); order = order_taken taken sent [] written e },
)
completes_lem debug true sent (x ∷ next) taken written e = (
  link true false [] (x ∷ next) (taken ++ take (length sent) sent) written,
  rw (drop_all sent),
  record {
    issues = refl;
    idle = λ h. cc;
    order =
        ap (λ t. (taken ++ take (length sent) sent) ++ t) (append-nil (x ∷ next))
        ∙ order_taken taken sent (x ∷ next) written e;
  },
)
completes_lem release false sent [] taken written e = (
  link false false [] [] (taken ++ take (length sent) sent) written,
  rw (drop_all sent),
  record { issues = refl; idle = λ _. (refl, refl); order = order_taken taken sent [] written e },
)
completes_lem release false sent (x ∷ next) taken written e = (
  link true true (x ∷ next) [] (taken ++ take (length sent) sent) written,
  rw (drop_all sent),
  record {
    issues = refl;
    idle = λ h. cc;
    order =
        ap (λ t. (taken ++ take (length sent) sent) ++ t) (append-nil (x ∷ next))
        ∙ order_taken taken sent (x ∷ next) written e;
  },
)
completes_lem release true sent [] taken written e = (
  link false true [] [] (taken ++ take (length sent) sent) written,
  rw (drop_all sent),
  record { issues = refl; idle = λ _. (refl, refl); order = order_taken taken sent [] written e },
)
completes_lem release true sent (x ∷ next) taken written e = (
  link true false [] (x ∷ next) (taken ++ take (length sent) sent) written,
  rw (drop_all sent),
  record {
    issues = refl;
    idle = λ h. cc;
    order =
        ap (λ t. (taken ++ take (length sent) sent) ++ t) (append-nil (x ∷ next))
        ∙ order_taken taken sent (x ∷ next) written e;
  },
)

writes_lem :
    (m : Build) (x i : Bool) (a b taken written bytes : List ℕ)
    → Inv (link x i a b taken written)
    → Keeps m (link x i a b taken written) (writes bytes)
unfolding send_buf
writes_lem m true i a b taken written bytes inv = writes_busy m i a b taken written bytes inv
writes_lem m false false a b taken written bytes inv =
    let (ea, eb) = inv.idle refl in
    rw (ea, eb) (writes_idle m false taken written bytes (ap (◌++◌ taken) (sym ea) ∙ inv.order))
writes_lem m false true a b taken written bytes inv =
    let (ea, eb) = inv.idle refl in
    rw (ea, eb) (writes_idle m true taken written bytes (ap (◌++◌ taken) (sym eb) ∙ inv.order))

complete_full :
    (m : Build) (x i : Bool) (a b taken written : List ℕ) (n : ℕ)
    → Inv (link x i a b taken written)
    → IsFull (link x i a b taken written) (completes n)
    → Keeps m (link x i a b taken written) (completes n)
unfolding send_buf
complete_full m false i a b taken written n inv full = cc (full.0)
complete_full m true false a b taken written n inv full =
    rw (full.1) (completes_lem m false b a taken written inv.order)
complete_full m true true a b taken written n inv full =
    rw (full.1) (completes_lem m true a b taken written inv.order)

act_link :
    (m : Build) (x i : Bool) (a b taken written : List ℕ) (action : Action)
    → Inv (link x i a b taken written)
    → IsFull (link x i a b taken written) action
    → Keeps m (link x i a b taken written) action
act_link m x i a b taken written (writes bytes) inv full =
    writes_lem m x i a b taken written bytes inv
act_link m x i a b taken written (completes n) inv full =
    complete_full m x i a b taken written n inv full

-- A link of the invariant is the one that its fields give.
link_fields :
    (x i : Bool) (a b issued taken written : List ℕ)
    → let l : Link = record (link x i a b taken written) { issued = issued } in
      l.issued ≡ in_flight l.sender → link x i a b taken written ≡ l
unfolding send_buf
link_fields false i a b issued taken written e = rw (e) refl
link_fields true false a b issued taken written e = rw (e) refl
link_fields true true a b issued taken written e = rw (e) refl

act-Inv : (m : Build) (l : Link) (a : Action) → Inv l → IsFull l a → Keeps m l a
act-Inv m l a inv full =
    let s = l.sender in
    let e =
      link_fields s.sending s.acc_buf_index s.first s.second l.issued l.taken l.written
        inv.issues in
    let inv' = subst Inv (sym e) inv in
    let full' = subst (λ k. IsFull k a) (sym e) full in
    subst (λ k. Keeps m k a) e
      (act_link m s.sending s.acc_buf_index s.first s.second l.taken l.written a inv' full')

-- A run of actions in which every completion is full.
pub data Run (m : Build) : Link → Link → Type 0 where
  stop : (l : Link) → Run m l l
  step :
      {l n : Link} (k : Link) (a : Action) → IsFull l a → act m l a ≡ ret k → Run m k n → Run m l n

Run-Inv : {m : Build} {l n : Link} → Run m l n → Inv l → Inv n
Run-Inv (stop l) inv = inv
Run-Inv {m} (step {l = l} k a full e r) inv =
    let (k', e', inv') = act-Inv m l a inv full in
    Run-Inv r (subst Inv (ret-injective (sym e' ∙ e)) inv')

unfoldable pub start : Link
start = record { sender = init; issued = []; taken = []; written = [] }

start-Inv : Inv start
unfolding start init send_buf
start-Inv = record { issues = refl; idle = λ _. (refl, refl); order = refl }

idle_taken :
    (x i : Bool) (a b taken written : List ℕ)
    → Inv (link x i a b taken written)
    → x ≡ false
    → taken ≡ written
unfolding send_buf
idle_taken true i a b taken written inv e = cc
idle_taken false false a b taken written inv e =
    sym (append-nil taken) ∙ ap (◌++◌ taken) (sym (inv.idle refl).0) ∙ inv.order
idle_taken false true a b taken written inv e =
    sym (append-nil taken) ∙ ap (◌++◌ taken) (sym (inv.idle refl).1) ∙ inv.order

-- From a fresh session, whatever is sent while completions are full: the socket has taken the bytes
-- given to `send` in their order, what the last `async_send` was given and is not complete comes
-- next, and what waits comes last.
pub Run-order :
    (m : Build) (l : Link) → Run m start l → l.taken ++ (l.issued ++ waiting l.sender) ≡ l.written
Run-order m l r =
    let inv = Run-Inv r start-Inv in
    ap (λ t. l.taken ++ (t ++ waiting l.sender)) inv.issues ∙ inv.order

-- From a fresh session, while completions are full: when nothing is on its way, the socket has taken
-- everything that was given to `send`.
pub Run-idle :
    (m : Build) (l : Link) → Run m start l → l.sender.sending ≡ false → l.taken ≡ l.written
Run-idle m l r idle =
    let s = l.sender in
    let inv = Run-Inv r start-Inv in
    let e =
      link_fields s.sending s.acc_buf_index s.first s.second l.issued l.taken l.written
        inv.issues in
    idle_taken s.sending s.acc_buf_index s.first s.second l.taken l.written (subst Inv (sym e) inv)
      idle

-- From a fresh session, while completions are full: in either build the next call of `send`, and the
-- next full completion, returns.
pub Run-act :
    (m : Build) (l : Link) (a : Action)
    → Run m start l
    → IsFull l a
    → (k : Link) × (act m l a ≡ ret k)
Run-act m l a r full = let (k, e, _) = act-Inv m l a (Run-Inv r start-Inv) full in (k, e)

-- Where the socket takes only the part `sent` of what is on its way, and then all that it is given
-- next: the bytes that waited reach it before the rest, which was written before them.
pub partial_overtaken :
    (m : Build) (i : Bool) (x y : ℕ) (sent rest next taken written : List ℕ)
    → let flight = sent ++ (x ∷ rest) in
      let l = link true i (if i then flight else y ∷ next) (if i then y ∷ next else flight) in
      (act m (l taken written) (completes (length sent)) >>= λ k.
      act m k (completes (length (y ∷ next))))
      ≡ ret (
          link true i
            (if i then x ∷ rest else [])
            (if i then [] else x ∷ rest)
            ((taken ++ sent) ++ (y ∷ next))
            written)
unfolding act handle_send play_check
partial_overtaken debug false x y sent rest next taken written = rw (
  drop_of_append (length sent) sent (x ∷ rest) refl,
  take_of_append (length sent) sent (x ∷ rest) refl,
  drop_all next,
  take_all next,
)
partial_overtaken debug true x y sent rest next taken written = rw (
  drop_of_append (length sent) sent (x ∷ rest) refl,
  take_of_append (length sent) sent (x ∷ rest) refl,
  drop_all next,
  take_all next,
)
partial_overtaken release false x y sent rest next taken written = rw (
  drop_of_append (length sent) sent (x ∷ rest) refl,
  take_of_append (length sent) sent (x ∷ rest) refl,
  drop_all next,
  take_all next,
)
partial_overtaken release true x y sent rest next taken written = rw (
  drop_of_append (length sent) sent (x ∷ rest) refl,
  take_of_append (length sent) sent (x ∷ rest) refl,
  drop_all next,
  take_all next,
)
