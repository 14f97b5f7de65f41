-- ===== src/Linux/Memfile/Mapping.antt =====
-- gneiss_fstat_size, gneiss_mmap and gneiss_munmap.
use ada_interfaces.Base.{
  ℕ, ◌^◌, ◌<◌, ◌≡◌, ◌↔◌, ◌≢◌, Bool, none, some, ℤ, pos, arith, refl, sym, ◌∙◌, true,
}
use ada_interfaces.Linux.Memfile.{Calls, to_int, gneiss_fstat_size, gneiss_mmap, gneiss_munmap}
use ada_interfaces.Linux.Memfile.Laws.{MapLaws}

-- The conversion to `int` keeps a size exactly if it is below 2 GiB.
to_int-exact : (s : ℕ) → (to_int s ≡ pos s) ↔ (s < 2 ^ 31)
unfolding to_int
to_int-exact s = (λ e. ground arith, λ h. ground arith)

module _ {W : Type 0} (k : Calls W) (t : MapLaws k) where
  -- On an open descriptor gneiss_fstat_size reports the size of the file exactly if that is below 2 GiB: a larger one
  -- comes back as another number.
  pub gneiss_fstat_size-exact :
      (fd : ℤ) (w : W)
      → t.is_open fd w ≡ true
      → ((gneiss_fstat_size k fd w).0 ≡ pos (t.file_size fd w)) ↔ (t.file_size fd w < 2 ^ 31)
  unfolding gneiss_fstat_size
  gneiss_fstat_size-exact fd w live = rw (t.fstat_size fd w live) (to_int-exact (t.file_size fd w))

  fstat_size_small :
      (fd : ℤ) (w : W)
      → t.is_open fd w ≡ true
      → t.file_size fd w < 2 ^ 31
      → gneiss_fstat_size k fd w ≡ (pos (t.file_size fd w), w)
  unfolding gneiss_fstat_size
  fstat_size_small fd w live h = rw (t.fstat_size fd w live, (to_int-exact (t.file_size fd w)).1 h)

  mmap_small :
      (fd : ℤ) (writable : Bool) (a : ℕ) (w : W)
      → t.is_open fd w ≡ true
      → t.file_size fd w < 2 ^ 31
      → (gneiss_mmap k fd writable w).0 ≡ some a
      → t.mapped a (gneiss_mmap k fd writable w).1 ≡ t.file_size fd w
  unfolding gneiss_mmap
  mmap_small fd writable a w live h e =
      ground (arith, fstat_size_small fd w live h, t.mmap_size (t.file_size fd w) writable fd a w)

  -- gneiss_munmap gives back all that gneiss_mmap mapped (`v` is the world when it is called), if
  -- the descriptor is open at both calls, the file is not empty and below 2 GiB, and neither its
  -- size nor the mapping at the address has changed in between: no part of the mapping is left,
  -- mappings at other addresses are as they were, and the address is reset to null.
  pub gneiss_munmap-gneiss_mmap :
      (fd : ℤ) (writable : Bool) (a : ℕ) (w v : W)
      → t.is_open fd w ≡ true
      → t.is_open fd v ≡ true
      → 0 < t.file_size fd w
      → t.file_size fd w < 2 ^ 31
      → (gneiss_mmap k fd writable w).0 ≡ some a
      → t.mapped a v ≡ t.mapped a (gneiss_mmap k fd writable w).1
      → t.file_size fd v ≡ t.file_size fd w
      → ((gneiss_munmap k fd a v).0 ≡ none)
        × (t.mapped a (gneiss_munmap k fd a v).1 ≡ 0)
        × ((b : ℕ) → a ≢ b → t.mapped b (gneiss_munmap k fd a v).1 ≡ t.mapped b v)
  unfolding gneiss_munmap
  gneiss_munmap-gneiss_mmap fd writable a w v live still some_size small e kept same =
      let whole : t.mapped a v ≡ t.file_size fd v =
        kept ∙ mmap_small fd writable a w live small e ∙ sym same in
      let size = fstat_size_small fd v still (rw same small) in
      rw (size, (t.munmap_done a (t.file_size fd v) v whole (rw same some_size)).0)
        (refl, (t.munmap_done a _ v whole (rw same some_size)).1, λ b. t.munmap_other a _ b v whole)
