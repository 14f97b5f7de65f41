-- ===== src/Tests/Memfiles.antt =====
-- Kernels for memory files: the seals of one file, the mappings of a process over one file of two
-- pages, and a table of descriptors on which memfd_create hands out number 5.
use ada_interfaces.Base.{
  ℕ, zero, suc, ◌≡◌, ◌≢◌, ◌⊎◌, refl, Bool, true, false, Option, none, some, ◌==◌, if◌then◌else◌, ℤ,
  pos, negsuc, minus_one, is_neg, arith,
}
use ada_interfaces.Linux.Memfile.{
  Calls, Seal, gneiss_memfd_seal, gneiss_fstat_size, gneiss_mmap, gneiss_munmap,
  gneiss_memfd_create,
}
use ada_interfaces.Linux.Memfile.Laws.{SealSet, SealLaws, MapLaws, CreateLaws, add}
use ada_interfaces.Linux.Memfile.Seals.{gneiss_memfd_seal-outcome}
use ada_interfaces.Linux.Memfile.Mapping.{gneiss_munmap-gneiss_mmap}
use ada_interfaces.Linux.Memfile.Create.{gneiss_memfd_create-all_or_nothing}

-- A kernel on which nothing works.
abbrev broken : {W : Type 0} → Calls W
broken = record {
  add_seals = λ fd s w. (minus_one, w);
  fstat = λ fd w. ((minus_one, 0), w);
  mmap = λ size writable fd w. (none, w);
  munmap = λ a size w. (minus_one, w);
  memfd_create = λ name w. (minus_one, w);
  ftruncate = λ fd size w. (minus_one, w);
  close = λ fd w. (minus_one, w);
  warn = λ c w. (tt, w);
}

abbrev seal_one : Bool → Seal → SealSet → ℤ × SealSet
seal_one true s w = (minus_one, w)
seal_one false s w = (pos 0, add s w)

abbrev sealing : Calls SealSet
sealing = record broken { add_seals = λ fd s w. seal_one w.seal s w }

seal_one_laws :
    (b : Bool) (s : Seal) (w : SealSet)
    → (is_neg (seal_one b s w).0 ≡ false → (seal_one b s w).1 ≡ add s w)
      × (is_neg (seal_one b s w).0 ≡ true → (seal_one b s w).1 ≡ w)
      × (b ≡ true → is_neg (seal_one b s w).0 ≡ true)
seal_one_laws true s w = (λ h. cc, λ h. refl, λ h. refl)
seal_one_laws false s w = (λ h. refl, λ h. cc, λ h. cc)

abbrev seal_laws : SealLaws sealing
seal_laws = record {
  seals = λ fd w. w;
  add_done = λ fd s w. (seal_one_laws w.seal s w).0;
  add_failed = λ fd s w. (seal_one_laws w.seal s w).1;
  add_sealed = λ fd s w. (seal_one_laws w.seal s w).2;
  warn_same = λ c fd w. refl;
}

abbrev unsealed : SealSet
unsealed = record { shrink = false; grow = true; seal = false }

abbrev sealed : SealSet
sealed = record { shrink = true; grow = true; seal = true }

gneiss_memfd_seal-outcome_example :
    (((gneiss_memfd_seal sealing (pos 5) unsealed).0 ≡ pos 1)
      × (unsealed.seal ≡ false)
      × ((gneiss_memfd_seal sealing (pos 5) unsealed).1 ≡ sealed))
    ⊎ (((gneiss_memfd_seal sealing (pos 5) unsealed).0 ≡ pos 0)
        × ((gneiss_memfd_seal sealing (pos 5) unsealed).1.seal ≡ unsealed.seal))
gneiss_memfd_seal-outcome_example = gneiss_memfd_seal-outcome sealing seal_laws (pos 5) unsealed

abbrev Mappings : Type 0
Mappings = ℕ → ℕ

abbrev put : {A : Type 0} → ℕ → A → (ℕ → A) → ℕ → A
put n b w m = if m == n then b else w m

-- One mapping at most, at address 7.
abbrev map_at : ℕ → ℕ → Mappings → Option ℕ × Mappings
map_at zero size w = (some 7, put 7 size w)
map_at (suc n) size w = (none, w)

abbrev mapping : Calls Mappings
mapping = record broken {
  fstat = λ fd w. ((pos 0, 8192), w);
  mmap = λ size writable fd w. map_at (w 7) size w;
  munmap = λ a size w. (pos 0, put a 0 w);
}

map_at_laws :
    (n size a : ℕ) (w : Mappings)
    → (map_at n size w).0 ≡ some a
    → ((map_at n size w).1 a ≡ size) × ((b : ℕ) → a ≢ b → (map_at n size w).1 b ≡ w b)
map_at_laws zero size a w h = (ground arith, λ b ne. ground arith)
map_at_laws (suc n) size a w h = cc

abbrev map_laws : MapLaws mapping
map_laws = record {
  is_open = λ fd w. true;
  file_size = λ fd w. 8192;
  mapped = λ a w. w a;
  fstat_size = λ fd w h. refl;
  mmap_size = λ size writable fd a w h. (map_at_laws (w 7) size a w h).0;
  mmap_other = λ size writable fd a b w h. (map_at_laws (w 7) size a w h).1 b;
  munmap_done = λ a size w e h. (refl, ground arith);
  munmap_other = λ a size b w e h. ground arith;
}

abbrev unmapped : Mappings
unmapped a = 0

gneiss_munmap-gneiss_mmap_example :
    ((gneiss_munmap mapping (pos 5) 7 (gneiss_mmap mapping (pos 5) true unmapped).1).0 ≡ none)
    × ((gneiss_munmap mapping (pos 5) 7 (gneiss_mmap mapping (pos 5) true unmapped).1).1 7 ≡ 0)
    × ((b : ℕ)
        → 7 ≢ b
        → (gneiss_munmap mapping (pos 5) 7 (gneiss_mmap mapping (pos 5) true unmapped).1).1 b
          ≡ (gneiss_mmap mapping (pos 5) true unmapped).1 b)
unfolding gneiss_mmap gneiss_fstat_size
gneiss_munmap-gneiss_mmap_example =
    gneiss_munmap-gneiss_mmap mapping map_laws (pos 5) true 7 unmapped
      (gneiss_mmap mapping (pos 5) true unmapped).1 refl refl (omega arith) (omega arith) refl refl
      refl

record Files : Type 0 where
  opened : ℕ → Bool
  sizes : ℕ → ℕ

abbrev create_at : Bool → Files → ℤ × Files
create_at true w = (minus_one, w)
create_at false w = (pos 5, record w { opened = put 5 true w.opened })

abbrev truncate_at : ℤ → ℕ → Files → ℤ × Files
truncate_at (pos n) size w = (pos 0, record w { sizes = put n size w.sizes })
truncate_at (negsuc n) size w = (minus_one, w)

abbrev close_at : ℤ → Files → ℤ × Files
close_at (pos n) w = (pos 0, record w { opened = put n false w.opened })
close_at (negsuc n) w = (minus_one, w)

abbrev creating : Calls Files
creating = record broken {
  memfd_create = λ name w. create_at (w.opened 5) w;
  ftruncate = truncate_at;
  close = close_at;
}

create_at_fresh :
    (b : Bool) (n : ℕ) (w : Files)
    → w.opened 5 ≡ b
    → (create_at b w).0 ≡ pos n
    → (w.opened n ≡ false) × ((create_at b w).1.opened n ≡ true)
create_at_fresh true n w e h = cc
create_at_fresh false n w e h = ground arith

create_at_other :
    (b : Bool) (m : ℕ) (w : Files)
    → (create_at b w).0 ≢ pos m
    → (create_at b w).1.opened m ≡ w.opened m
create_at_other true m w h = refl
create_at_other false m w h = ground arith

truncate_at_opened :
    (fd : ℤ) (size m : ℕ) (w : Files) → (truncate_at fd size w).1.opened m ≡ w.opened m
truncate_at_opened (pos n) size m w = refl
truncate_at_opened (negsuc n) size m w = refl

abbrev create_laws : CreateLaws creating
create_laws = record {
  is_open = λ n w. w.opened n;
  file_size = λ n w. w.sizes n;
  create_fresh = λ name n w h. create_at_fresh (w.opened 5) n w refl h;
  create_other = λ name m w h. create_at_other (w.opened 5) m w h;
  truncate_open = truncate_at_opened;
  truncate_size = λ n size w h. ground arith;
  close_self = λ n w. ground arith;
  close_other = λ n m w h. ground arith;
  warn_open = λ c n w. refl;
}

abbrev no_files : Files
no_files = record { opened = λ n. n == 2; sizes = λ n. 0 }

gneiss_memfd_create-all_or_nothing_example :
    ((n : ℕ) × ((gneiss_memfd_create creating 1 64 no_files).0 ≡ pos n)
      × (no_files.opened n ≡ false)
      × ((gneiss_memfd_create creating 1 64 no_files).1.opened n ≡ true)
      × ((gneiss_memfd_create creating 1 64 no_files).1.sizes n ≡ 64)
      × ((m : ℕ)
          → m ≢ n
          → (gneiss_memfd_create creating 1 64 no_files).1.opened m ≡ no_files.opened m))
    ⊎ ((is_neg (gneiss_memfd_create creating 1 64 no_files).0 ≡ true)
        × ((m : ℕ) → (gneiss_memfd_create creating 1 64 no_files).1.opened m ≡ no_files.opened m))
gneiss_memfd_create-all_or_nothing_example =
    gneiss_memfd_create-all_or_nothing creating create_laws 1 64 no_files
