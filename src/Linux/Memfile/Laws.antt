-- ===== src/Linux/Memfile/Laws.antt =====
-- What the sources rely on of memory files, as laws about `Calls`: fcntl(2), fstat(2), mmap(2),
-- memfd_create(2), ftruncate(2) and close(2).
use ada_interfaces.Base.{ℕ, ◌<◌, ◌≡◌, ◌≢◌, Bool, true, false, some, ℤ, pos, is_neg}
use ada_interfaces.Linux.Memfile.{Calls, Warning, Seal, seal_shrink, seal_grow, seal_seal}

pub record SealSet : Type 0 where
  pub shrink : Bool
  pub grow : Bool
  pub seal : Bool

unfoldable pub add : Seal → SealSet → SealSet
add seal_shrink s = record s { shrink = true }
add seal_grow s = record s { grow = true }
add seal_seal s = record s { seal = true }

-- A file with F_SEAL_SEAL takes no further seal; a call that fails changes nothing.
pub record SealLaws {W : Type 0} (k : Calls W) : Type 0 where
  pub seals : ℤ → W → SealSet
  pub add_done :
      (fd : ℤ) (s : Seal) (w : W)
      → is_neg (k.add_seals fd s w).0 ≡ false
      → seals fd (k.add_seals fd s w).1 ≡ add s (seals fd w)
  pub add_failed :
      (fd : ℤ) (s : Seal) (w : W)
      → is_neg (k.add_seals fd s w).0 ≡ true
      → seals fd (k.add_seals fd s w).1 ≡ seals fd w
  pub add_sealed :
      (fd : ℤ) (s : Seal) (w : W) → (seals fd w).seal ≡ true → is_neg (k.add_seals fd s w).0 ≡ true
  pub warn_same : (c : Warning) (fd : ℤ) (w : W) → seals fd (k.warn c w).1 ≡ seals fd w

-- `mapped a w` is the size of the mapping at address `a`, 0 where there is none; fstat(2) reports
-- the size of the file of a descriptor that is open.
pub record MapLaws {W : Type 0} (k : Calls W) : Type 0 where
  pub is_open : ℤ → W → Bool
  pub file_size : ℤ → W → ℕ
  pub mapped : ℕ → W → ℕ
  pub fstat_size :
      (fd : ℤ) (w : W) → is_open fd w ≡ true → k.fstat fd w ≡ ((pos 0, file_size fd w), w)
  pub mmap_size :
      (size : ℕ) (writable : Bool) (fd : ℤ) (a : ℕ) (w : W)
      → (k.mmap size writable fd w).0 ≡ some a
      → mapped a (k.mmap size writable fd w).1 ≡ size
  pub mmap_other :
      (size : ℕ) (writable : Bool) (fd : ℤ) (a b : ℕ) (w : W)
      → (k.mmap size writable fd w).0 ≡ some a
      → a ≢ b
      → mapped b (k.mmap size writable fd w).1 ≡ mapped b w
  pub munmap_done :
      (a size : ℕ) (w : W)
      → mapped a w ≡ size
      → 0 < size
      → ((k.munmap a size w).0 ≡ pos 0) × (mapped a (k.munmap a size w).1 ≡ 0)
  pub munmap_other :
      (a size b : ℕ) (w : W)
      → mapped a w ≡ size
      → a ≢ b
      → mapped b (k.munmap a size w).1 ≡ mapped b w

-- `is_open` and `file_size` of the descriptors of the process. memfd_create(2) returns one that
-- was not open, ftruncate(2) sets the size or changes nothing.
pub record CreateLaws {W : Type 0} (k : Calls W) : Type 0 where
  pub is_open : ℕ → W → Bool
  pub file_size : ℕ → W → ℕ
  pub create_fresh :
      (name n : ℕ) (w : W)
      → (k.memfd_create name w).0 ≡ pos n
      → (is_open n w ≡ false) × (is_open n (k.memfd_create name w).1 ≡ true)
  pub create_other :
      (name m : ℕ) (w : W)
      → (k.memfd_create name w).0 ≢ pos m
      → is_open m (k.memfd_create name w).1 ≡ is_open m w
  pub truncate_open :
      (fd : ℤ) (size m : ℕ) (w : W) → is_open m (k.ftruncate fd size w).1 ≡ is_open m w
  pub truncate_size :
      (n size : ℕ) (w : W)
      → is_neg (k.ftruncate (pos n) size w).0 ≡ false
      → file_size n (k.ftruncate (pos n) size w).1 ≡ size
  pub close_self : (n : ℕ) (w : W) → is_open n (k.close (pos n) w).1 ≡ false
  pub close_other : (n m : ℕ) (w : W) → m ≢ n → is_open m (k.close (pos n) w).1 ≡ is_open m w
  pub warn_open : (c : Warning) (n : ℕ) (w : W) → is_open n (k.warn c w).1 ≡ is_open n w
