-- ===== src/Linux/Memfile.antt =====
-- Memory files and mappings: gneiss_memfd_seal, gneiss_fstat_size, gneiss_mmap and gneiss_munmap
-- of src/platform/linux/syscall.c, and gneiss_memfd_create of
-- src/memory/client/linux/gneiss_memory_client.c.
pub mod Laws
pub mod Seals
pub mod Mapping
pub mod Create
use ada_interfaces.Base.{
  ℕ, ◌+◌, ◌-◌, ◌%◌, ◌^◌, Bool, Option, none, some, ℤ, pos, negsuc, minus_one, is_neg, Proc, pure,
  ◌>>=◌, ◌>>◌, when, to_size, if◌then◌else◌, ltb,
}

pub data Warning : Type 0 where
  seal_shrink_failed seal_grow_failed seal_seal_failed : ℤ → Warning
  fstat_failed : ℤ → Warning
  mmap_failed : ℤ → ℤ → Bool → Warning
  munmap_failed : ℤ → ℤ → Warning
  memfd_create_failed ftruncate_failed : ℕ → ℕ → Warning

-- F_SEAL_SHRINK, F_SEAL_GROW, F_SEAL_SEAL
pub data Seal : Type 0 where
  seal_shrink seal_grow seal_seal : Seal

-- The kernel. A name and an address are numbers; `none` is MAP_FAILED.
pub record Calls (W : Type 0) : Type 0 where
  pub add_seals : ℤ → Seal → Proc W ℤ
  -- result and st.st_size
  pub fstat : ℤ → Proc W (ℤ × ℕ)
  -- mmap(0, size, PROT_READ or PROT_READ | PROT_WRITE, MAP_SHARED, fd, 0)
  pub mmap : ℕ → Bool → ℤ → Proc W (Option ℕ)
  pub munmap : ℕ → ℕ → Proc W ℤ
  -- memfd_create(name, MFD_ALLOW_SEALING)
  pub memfd_create : ℕ → Proc W ℤ
  pub ftruncate : ℤ → ℕ → Proc W ℤ
  pub close : ℤ → Proc W ℤ
  pub warn : Warning → Proc W (Unit {0})

-- The conversion of a 64-bit value to `int`, by its low 32 bits in two's complement.
unfoldable pub to_int : ℕ → ℤ
to_int n = if ltb (n % 2 ^ 32) (2 ^ 31) then pos (n % 2 ^ 32) else negsuc (2 ^ 32 - n % 2 ^ 32 - 1)

module _ {W : Type 0} (k : Calls W) where
  unfoldable pub gneiss_memfd_seal : ℤ → Proc W ℤ
  gneiss_memfd_seal fd = do
    shrink ← k.add_seals fd seal_shrink
    if is_neg shrink then (do k.warn (seal_shrink_failed fd); pure (pos 0)) else do
      grow ← k.add_seals fd seal_grow
      if is_neg grow then (do k.warn (seal_grow_failed fd); pure (pos 0)) else do
        seal ← k.add_seals fd seal_seal
        if is_neg seal then (do k.warn (seal_seal_failed fd); pure (pos 0)) else pure (pos 1)

  unfoldable pub gneiss_fstat_size : ℤ → Proc W ℤ
  unfolding to_int
  gneiss_fstat_size fd = do
    r ← k.fstat fd
    if is_neg r.0 then (do k.warn (fstat_failed fd); pure (pos 0)) else pure (to_int r.1)

  -- The result is the new content of `*map`, `none` for the null pointer.
  unfoldable pub gneiss_mmap : ℤ → Bool → Proc W (Option ℕ)
  unfolding to_size
  gneiss_mmap fd writable = do
    size ← gneiss_fstat_size fd
    map ← k.mmap (to_size size) writable fd
    elim map [ none ↦ do k.warn (mmap_failed fd size writable); pure none | some a ↦ pure (some a) ]

  -- `map` is the old content of `*map`. The report of a failure asks for the size once more.
  unfoldable pub gneiss_munmap : ℤ → ℕ → Proc W (Option ℕ)
  unfolding to_size
  gneiss_munmap fd map = do
    size ← gneiss_fstat_size fd
    rc ← k.munmap map (to_size size)
    when (is_neg rc) (do s ← gneiss_fstat_size fd; k.warn (munmap_failed fd s))
    pure none

  unfoldable pub gneiss_memfd_create : ℕ → ℕ → Proc W ℤ
  gneiss_memfd_create name size = do
    fd ← k.memfd_create name
    if is_neg fd then (do k.warn (memfd_create_failed name size); pure fd) else do
      rc ← k.ftruncate fd size
      if is_neg rc
          then (do k.warn (ftruncate_failed name size); _ ← k.close fd; pure minus_one)
          else pure fd
