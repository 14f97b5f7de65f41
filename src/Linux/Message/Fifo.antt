-- ===== src/Linux/Message/Fifo.antt =====
-- The two ends of a message session as one queue.
use ada_interfaces.Base.{
  ◌⊎◌, inl, inr, Bool, Bool-cases, refl, subst, ℕ, ◌≡◌, true, false, List, [], ◌∷◌, ◌++◌, length, ℤ,
  pos, is_neg, Proc, pure, ◌>>=◌, ◌>>◌, when, take_all, arith,
}
use ada_interfaces.Linux.Message.{
  Calls, Warning, gneiss_message_write, gneiss_message_read, gneiss_message_peek,
}
use ada_interfaces.Linux.Message.Queue.{
  QueueLaws, AllOf, gneiss_message_peek-waiting, message_read-head, message_read-none,
}

-- What a program does with a session: one end writes a message, the other reads into a buffer or
-- peeks.
pub data Act : Type 0 where
  writes : List ℕ → Act
  reads : List ℕ → Act
  peeks : Act

pub data Answer : Type 0 where
  wrote : Answer
  received : List ℕ → Answer
  peeked : ℤ → Answer

unfoldable pub perform : {W : Type 0} → Calls W → ℤ → ℤ → ℕ → Act → Proc W Answer
perform k fd other size (writes m) = do gneiss_message_write k fd m size; pure wrote
perform k fd other size (reads buffer) = do
  m ← gneiss_message_read k other buffer size
  pure (received m)
perform k fd other size peeks = do n ← gneiss_message_peek k other; pure (peeked n)

unfoldable pub run : {W : Type 0} → Calls W → ℤ → ℤ → ℕ → List Act → Proc W (List Answer)
run k fd other size [] = pure []
run k fd other size (a ∷ acts) = do
  x ← perform k fd other size a
  xs ← run k fd other size acts
  pure (x ∷ xs)

-- A queue of messages that a full socket may refuse. A read of the empty queue leaves the buffer as
-- it was, and a peek says a negative number.
pub data Step : Act → List (List ℕ) → Answer → List (List ℕ) → Type 0 where
  written : {q : List (List ℕ)} (m : List ℕ) → Step (writes m) q wrote (q ++ m ∷ [])
  refused : {q : List (List ℕ)} (m : List ℕ) → Step (writes m) q wrote q
  read_first : {q : List (List ℕ)} (b m : List ℕ) → Step (reads b) (m ∷ q) (received m) q
  read_none : (b : List ℕ) → Step (reads b) [] (received b) []
  peek_first :
      {q : List (List ℕ)} (m : List ℕ) → Step peeks (m ∷ q) (peeked (pos (length m))) (m ∷ q)
  peek_none : (n : ℤ) → is_neg n ≡ true → Step peeks [] (peeked n) []

pub data Steps : List Act → List (List ℕ) → List Answer → List (List ℕ) → Type 0 where
  done : {q : List (List ℕ)} → Steps [] q [] q
  step :
      {a : Act} {acts : List Act} {x : Answer} {xs : List Answer} {q q' q'' : List (List ℕ)}
      → Step a q x q'
      → Steps acts q' xs q''
      → Steps (a ∷ acts) q (x ∷ xs) q''

-- Messages and buffers of the session's size.
abbrev pub IsFor : ℕ → Act → Type 0
IsFor size (writes m) = length m ≡ size
IsFor size (reads b) = length b ≡ size
IsFor size peeks = Unit {0}

abbrev pub AllFor : ℕ → List Act → Type 0
AllFor size [] = Unit {0}
AllFor size (a ∷ acts) = IsFor size a × AllFor size acts

queue-cases : (q : List (List ℕ)) → (q ≡ []) ⊎ ((m : List ℕ) × (ms : List (List ℕ)) × (q ≡ m ∷ ms))
queue-cases [] = inl refl
queue-cases (m ∷ ms) = inr (m, ms, refl)

append-AllOf :
    (size : ℕ) (m : List ℕ) (q : List (List ℕ))
    → AllOf size q
    → length m ≡ size
    → AllOf size (q ++ m ∷ [])
append-AllOf size m [] h l = (l, tt)
append-AllOf size m (x ∷ q) h l = (h.0, append-AllOf size m q h.1 l)

module _ {W : Type 0} (k : Calls W) (t : QueueLaws k) (fd : ℤ) (size : ℕ) where
  -- Performing an act is a step of the queue, which keeps the size of its messages.
  abbrev Refines : Act → W → Type 0
  Refines a w =
      Step a (t.waiting (t.peer fd) w) (perform k fd (t.peer fd) size a w).0
        (t.waiting (t.peer fd) (perform k fd (t.peer fd) size a w).1)
      × AllOf size (t.waiting (t.peer fd) (perform k fd (t.peer fd) size a w).1)

  warned-waiting :
      (b : Bool) (c : Warning) (w : W)
      → t.waiting (t.peer fd) (when b (k.warn c) w).1 ≡ t.waiting (t.peer fd) w
  warned-waiting true c w = t.warn_same c (t.peer fd) w
  warned-waiting false c w = refl

  writes-Refines :
      (m : List ℕ) (w : W)
      → length m ≡ size
      → AllOf size (t.waiting (t.peer fd) w)
      → Refines (writes m) w
  unfolding perform gneiss_message_write
  writes-Refines m w l h =
      rw (take_all size m (omega arith), warned-waiting)
        (elim (Bool-cases (is_neg (k.send fd m w).0)) [
          | inl bad ↦ rw (t.send_failed fd m w bad) (refused m, h)
          | inr good ↦ rw (t.send_done fd m w good) (written m, append-AllOf size m _ h l)
        ])

  reads-Refines :
      (b : List ℕ) (w : W)
      → length b ≡ size
      → AllOf size (t.waiting (t.peer fd) w)
      → Refines (reads b) w
  unfolding perform
  reads-Refines b w l h = elim (queue-cases (t.waiting (t.peer fd) w)) [
    | inl e ↦
        let r = message_read-none k t (t.peer fd) b size w e in rw (e, r.0, r.1) (read_none b, tt)
    | inr (m, ms, e) ↦
        let all = subst (AllOf size) e h in
        let r = message_read-head k t (t.peer fd) b m ms size w e all.0 l in
        rw (e, r.0, r.1) (read_first b m, all.1)
  ]

  peeks-Refines : (w : W) → AllOf size (t.waiting (t.peer fd) w) → Refines peeks w
  unfolding perform
  peeks-Refines w h = elim (queue-cases (t.waiting (t.peer fd) w)) [
    | inl e ↦
        let r = (gneiss_message_peek-waiting k t (t.peer fd) w).1 e in
        rw (e, r.1) (peek_none _ r.0, tt)
    | inr (m, ms, e) ↦
        let r = (gneiss_message_peek-waiting k t (t.peer fd) w).0 m ms e in
        rw (e, r.0, r.1) (peek_first m, subst (AllOf size) e h)
  ]

  perform-Refines :
      (a : Act) (w : W) → IsFor size a → AllOf size (t.waiting (t.peer fd) w) → Refines a w
  perform-Refines (writes m) w l h = writes-Refines m w l h
  perform-Refines (reads b) w l h = reads-Refines b w l h
  perform-Refines peeks w l h = peeks-Refines w h

  -- Whatever the order in which one end writes messages of the session's size and the other reads
  -- into buffers of that size and peeks, what they get is what a queue gives: every message is
  -- refused whole or waits behind the earlier ones, a read takes the oldest, or leaves the buffer
  -- alone if none waits, and a peek says how long the oldest is, or a negative number.
  pub run-Steps :
      (acts : List Act) (w : W)
      → AllFor size acts
      → AllOf size (t.waiting (t.peer fd) w)
      → Steps acts
          (t.waiting (t.peer fd) w)
          (run k fd (t.peer fd) size acts w).0
          (t.waiting (t.peer fd) (run k fd (t.peer fd) size acts w).1)
  unfolding run
  run-Steps [] w all h = done
  run-Steps (a ∷ acts) w all h =
      let first = perform-Refines a w all.0 h in step first.0 (run-Steps acts _ all.1 first.1)
