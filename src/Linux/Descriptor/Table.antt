-- ===== src/Linux/Descriptor/Table.antt =====
-- What the sources rely on of the process's descriptor table, as laws about `Calls`.
use ada_interfaces.Base.{ℕ, ◌≡◌, ◌≢◌, Bool, true, false, ℤ, pos}
use ada_interfaces.Linux.Descriptor.{Calls, Warning}

-- `is_open n w` says that descriptor `n` of the process is open. close(2): the descriptor is
-- deallocated, also where an error is reported; dup(2), open(2), socketpair(2): a descriptor that
-- they return was not open before.
pub record DescriptorLaws {W : Type 0} (k : Calls W) : Type 0 where
  pub is_open : ℕ → W → Bool
  pub close_self : (n : ℕ) (w : W) → is_open n (k.close (pos n) w).1 ≡ false
  pub close_other : (n m : ℕ) (w : W) → m ≢ n → is_open m (k.close (pos n) w).1 ≡ is_open m w
  pub dup_fresh : (fd : ℤ) (n : ℕ) (w : W) → (k.dup fd w).0 ≡ pos n → is_open n w ≡ false
  pub dup_opens :
      (fd : ℤ) (n : ℕ) (w : W) → (k.dup fd w).0 ≡ pos n → is_open n (k.dup fd w).1 ≡ true
  pub dup_other :
      (fd : ℤ) (m : ℕ) (w : W) → (k.dup fd w).0 ≢ pos m → is_open m (k.dup fd w).1 ≡ is_open m w
  pub warn_same : (c : Warning) (n : ℕ) (w : W) → is_open n (k.warn c w).1 ≡ is_open n w
