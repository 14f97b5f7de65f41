-- ===== src/Linux/Block/Laws.antt =====
-- What block_client.c relies on of malloc(3), free(3), the aio calls and the descriptor table.
use ada_interfaces.Base.{ℕ, ◌≡◌, ◌≢◌, Bool, true, false, Option, none, some, ℤ, pos}
use ada_interfaces.Linux.Block.{Calls, Aiocb, Report}

-- `live a w` says that a block is allocated at `a`, of `size a w` bytes. Only malloc and free
-- change the former, free(NULL) does not; malloc gives a block of the size that it is asked for,
-- and leaves the sizes of others.
pub record HeapLaws {W : Type 0} (k : Calls W) : Type 0 where
  pub live : ℕ → W → Bool
  pub size : ℕ → W → ℕ
  pub malloc_fresh :
      (n a : ℕ) (w : W)
      → (k.malloc n w).0 ≡ some a
      → (live a w ≡ false) × (live a (k.malloc n w).1 ≡ true) × (size a (k.malloc n w).1 ≡ n)
  pub malloc_size :
      (n b : ℕ) (w : W) → (k.malloc n w).0 ≢ some b → size b (k.malloc n w).1 ≡ size b w
  pub malloc_other :
      (n b : ℕ) (w : W) → (k.malloc n w).0 ≢ some b → live b (k.malloc n w).1 ≡ live b w
  pub free_self : (a : ℕ) (w : W) → live a (k.free (some a) w).1 ≡ false
  pub free_other : (a b : ℕ) (w : W) → b ≢ a → live b (k.free (some a) w).1 ≡ live b w
  pub free_null : (b : ℕ) (w : W) → live b (k.free none w).1 ≡ live b w
  pub cancel_live :
      (fd : ℤ) (p : Option ℕ) (b : ℕ) (w : W) → live b (k.aio_cancel fd p w).1 ≡ live b w
  pub read_live : (a : ℕ) (c : Aiocb) (b : ℕ) (w : W) → live b (k.aio_read a c w).1 ≡ live b w
  pub write_live : (a : ℕ) (c : Aiocb) (b : ℕ) (w : W) → live b (k.aio_write a c w).1 ≡ live b w
  pub error_live : (a : ℕ) (c : Aiocb) (b : ℕ) (w : W) → live b (k.aio_error a c w).1 ≡ live b w
  pub return_live : (a : ℕ) (c : Aiocb) (b : ℕ) (w : W) → live b (k.aio_return a c w).1 ≡ live b w
  pub report_live : (c : Report) (b : ℕ) (w : W) → live b (k.report c w).1 ≡ live b w

-- `is_open n w` says that descriptor `n` of the process is open: close(2) ends that, and the calls
-- between an open and a close of the client leave it alone.
pub record DescriptorLaws {W : Type 0} (k : Calls W) : Type 0 where
  pub is_open : ℕ → W → Bool
  pub close_self : (n : ℕ) (w : W) → is_open n (k.close (pos n) w).1 ≡ false
  pub close_other : (n m : ℕ) (w : W) → m ≢ n → is_open m (k.close (pos n) w).1 ≡ is_open m w
  pub cancel_open :
      (fd : ℤ) (p : Option ℕ) (n : ℕ) (w : W) → is_open n (k.aio_cancel fd p w).1 ≡ is_open n w
