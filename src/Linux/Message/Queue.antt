-- ===== src/Linux/Message/Queue.antt =====
-- The message functions against the queue of a sequenced-packet socket.
use mathlib.Core.List.{append-nil}
use ada_interfaces.Base.{
  refl, ◌∙◌, ℕ, ◌≡◌, ap, Bool, true, false, List, [], ◌∷◌, ◌++◌, length, take, ℤ, pos, is_neg,
  if◌then◌else◌, take_all, drop_all, arith,
}
use ada_interfaces.Linux.Message.{
  Calls, Warning, recv_failed, gneiss_message_read, gneiss_message_peek,
}

-- `waiting fd w` are the messages that wait at `fd`, the oldest first; what is sent through `fd`
-- waits at `peer fd`. send(2), recv(2): on such a socket a message is sent whole, and MSG_TRUNC
-- returns its real length.
pub record QueueLaws {W : Type 0} (k : Calls W) : Type 0 where
  pub waiting : ℤ → W → List (List ℕ)
  pub peer : ℤ → ℤ
  pub send_done :
      (fd : ℤ) (msg : List ℕ) (w : W)
      → is_neg (k.send fd msg w).0 ≡ false
      → waiting (peer fd) (k.send fd msg w).1 ≡ waiting (peer fd) w ++ msg ∷ []
  pub recv_head :
      (fd : ℤ) (size : ℕ) (peek : Bool) (m : List ℕ) (ms : List (List ℕ)) (w : W)
      → waiting fd w ≡ m ∷ ms
      → ((k.recv fd size peek w).0 ≡ (pos (length m), take size m))
        × (waiting fd (k.recv fd size peek w).1 ≡ (if peek then m ∷ ms else ms))
  pub send_failed :
      (fd : ℤ) (msg : List ℕ) (w : W)
      → is_neg (k.send fd msg w).0 ≡ true
      → waiting (peer fd) (k.send fd msg w).1 ≡ waiting (peer fd) w
  pub recv_empty :
      (fd : ℤ) (size : ℕ) (peek : Bool) (w : W)
      → waiting fd w ≡ []
      → (is_neg (k.recv fd size peek w).0.0 ≡ true)
        × ((k.recv fd size peek w).0.1 ≡ [])
        × (waiting fd (k.recv fd size peek w).1 ≡ [])
  pub warn_same : (c : Warning) (fd : ℤ) (w : W) → waiting fd (k.warn c w).1 ≡ waiting fd w

abbrev pub AllOf : ℕ → List (List ℕ) → Type 0
AllOf size [] = Unit {0}
AllOf size (m ∷ ms) = (length m ≡ size) × AllOf size ms

module _ {W : Type 0} (k : Calls W) (t : QueueLaws k) where
  -- gneiss_message_peek says how long the oldest message is and leaves the queue alone; on an
  -- empty queue it says a negative number.
  pub gneiss_message_peek-waiting :
      (fd : ℤ) (w : W)
      → ((m : List ℕ) (ms : List (List ℕ))
          → t.waiting fd w ≡ m ∷ ms
          → ((gneiss_message_peek k fd w).0 ≡ pos (length m))
            × (t.waiting fd (gneiss_message_peek k fd w).1 ≡ m ∷ ms))
        × (t.waiting fd w ≡ []
            → (is_neg (gneiss_message_peek k fd w).0 ≡ true)
              × (t.waiting fd (gneiss_message_peek k fd w).1 ≡ []))
  unfolding gneiss_message_peek
  gneiss_message_peek-waiting fd w = (
    λ m ms e. (
      ap (λ (r : ℤ × List ℕ). r.0) (t.recv_head fd 0 true m ms w e).0,
      (t.recv_head fd 0 true m ms w e).1,
    ),
    λ e. ((t.recv_empty fd 0 true w e).0, (t.recv_empty fd 0 true w e).2),
  )

  pub message_read-head :
      (fd : ℤ) (buffer m : List ℕ) (ms : List (List ℕ)) (size : ℕ) (w : W)
      → t.waiting fd w ≡ m ∷ ms
      → length m ≡ size
      → length buffer ≡ size
      → ((gneiss_message_read k fd buffer size w).0 ≡ m)
        × (t.waiting fd (gneiss_message_read k fd buffer size w).1 ≡ ms)
  unfolding gneiss_message_read
  message_read-head fd buffer m ms size w e l b =
      let r = t.recv_head fd size false m ms w e in
      rw (r.0, take_all size m (omega arith), drop_all (length m) buffer (omega arith))
        (append-nil m, r.1)

  pub message_read-none :
      (fd : ℤ) (buffer : List ℕ) (size : ℕ) (w : W)
      → t.waiting fd w ≡ []
      → ((gneiss_message_read k fd buffer size w).0 ≡ buffer)
        × (t.waiting fd (gneiss_message_read k fd buffer size w).1 ≡ [])
  unfolding gneiss_message_read
  message_read-none fd buffer size w e =
      let r = t.recv_empty fd size false w e in
      rw (r.0, r.1) (refl, t.warn_same (recv_failed fd size) fd _ ∙ r.2)
