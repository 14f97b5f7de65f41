-- ===== src/Tests/Messages.antt =====
-- A kernel with one message queue that never fills.
use ada_interfaces.Base.{
  ℕ, ◌≡◌, refl, Bool, true, false, List, [], ◌∷◌, ◌++◌, length, take, if◌then◌else◌, ℤ, pos,
  minus_one, is_neg,
}
use ada_interfaces.Linux.Message.{Calls}
use ada_interfaces.Linux.Message.Fifo.{Act, writes, reads, peeks, run, Steps, run-Steps}
use ada_interfaces.Linux.Message.Queue.{QueueLaws}

abbrev World : Type 0
World = List (List ℕ)

abbrev receive : ℕ → Bool → World → (ℤ × List ℕ) × World
receive size peek [] = ((minus_one, []), [])
receive size peek (m ∷ ms) = ((pos (length m), take size m), if peek then m ∷ ms else ms)

abbrev kernel : Calls World
kernel = record {
  send = λ fd msg w. (pos (length msg), w ++ msg ∷ []);
  recv = λ fd size peek w. receive size peek w;
  warn = λ c w. (tt, w);
}

receive-cons :
    (size : ℕ) (peek : Bool) (m : List ℕ) (ms w : World)
    → w ≡ m ∷ ms
    → ((receive size peek w).0 ≡ (pos (length m), take size m))
      × ((receive size peek w).1 ≡ (if peek then m ∷ ms else ms))
receive-cons size peek m ms w e = rw e (refl, refl)

abbrev laws : QueueLaws kernel
laws = record {
  waiting = λ fd w. w;
  peer = λ fd. fd;
  send_done = λ fd msg w h. refl;
  recv_head = λ fd size peek m ms w e. receive-cons size peek m ms w e;
  send_failed = λ fd msg w h. cc;
  recv_empty = λ fd size peek w e. rw e (refl, refl, refl);
  warn_same = λ c fd w. refl;
}

-- A socket with room for one message.
abbrev accept : Bool → List ℕ → World → ℤ × World
accept true msg w = (pos (length msg), w ++ msg ∷ [])
accept false msg w = (minus_one, w)

abbrev is_idle : World → Bool
is_idle [] = true
is_idle (m ∷ ms) = false

abbrev narrow : Calls World
narrow = record kernel { send = λ fd msg w. accept (is_idle w) msg w }

accept_done :
    (b : Bool) (msg : List ℕ) (w : World)
    → is_neg (accept b msg w).0 ≡ false
    → (accept b msg w).1 ≡ w ++ msg ∷ []
accept_done true msg w h = refl
accept_done false msg w h = cc

accept_failed :
    (b : Bool) (msg : List ℕ) (w : World)
    → is_neg (accept b msg w).0 ≡ true
    → (accept b msg w).1 ≡ w
accept_failed true msg w h = cc
accept_failed false msg w h = refl

abbrev narrow_laws : QueueLaws narrow
narrow_laws = record {
  waiting = λ fd w. w;
  peer = λ fd. fd;
  recv_head = λ fd size peek m ms w e. receive-cons size peek m ms w e;
  recv_empty = λ fd size peek w e. rw e (refl, refl, refl);
  warn_same = λ c fd w. refl;
  send_done = λ fd msg w h. accept_done (is_idle w) msg w h;
  send_failed = λ fd msg w h. accept_failed (is_idle w) msg w h;
}

abbrev acts : List Act
acts =
    writes (1 ∷ 2 ∷ []) ∷ peeks ∷ writes (3 ∷ 4 ∷ []) ∷ reads (0 ∷ 0 ∷ []) ∷ reads (9 ∷ 9 ∷ []) ∷ []

run-Steps_example :
    Steps acts [] (run narrow (pos 5) (pos 5) 2 acts []).0 (run narrow (pos 5) (pos 5) 2 acts []).1
run-Steps_example =
    run-Steps narrow narrow_laws (pos 5) 2 acts [] (refl, (tt, (refl, (refl, (refl, tt))))) tt
