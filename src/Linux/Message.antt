-- ===== src/Linux/Message.antt =====
-- The message session's socket: src/message/linux/gneiss_message.c.
pub mod Queue
pub mod Fifo
use ada_interfaces.Base.{
  ℕ, Bool, true, false, List, [], ◌++◌, length, take, drop, ℤ, is_neg, Proc, pure, ◌>>=◌, ◌>>◌,
  when,
}

pub data Warning : Type 0 where
  send_failed recv_failed : ℤ → ℕ → Warning

-- The kernel. recv with MSG_DONTWAIT | MSG_TRUNC, and MSG_PEEK if the flag is set, at most `size`
-- bytes: result and the bytes that it stored.
pub record Calls (W : Type 0) : Type 0 where
  -- send(fd, msg, size, MSG_DONTWAIT)
  pub send : ℤ → List ℕ → Proc W ℤ
  pub recv : ℤ → ℕ → Bool → Proc W (ℤ × List ℕ)
  pub warn : Warning → Proc W (Unit {0})

module _ {W : Type 0} (k : Calls W) where
  unfoldable pub gneiss_message_write : ℤ → List ℕ → ℕ → Proc W (Unit {0})
  gneiss_message_write fd msg size = do
    rc ← k.send fd (take size msg)
    when (is_neg rc) (k.warn (send_failed fd size))

  -- The result is the new content of the buffer.
  unfoldable pub gneiss_message_read : ℤ → List ℕ → ℕ → Proc W (List ℕ)
  gneiss_message_read fd msg size = do
    r ← k.recv fd size false
    when (is_neg r.0) (k.warn (recv_failed fd size))
    pure (r.1 ++ drop (length r.1) msg)

  unfoldable pub gneiss_message_peek : ℤ → Proc W ℤ
  gneiss_message_peek fd = do r ← k.recv fd 0 true; pure r.0
