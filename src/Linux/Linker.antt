-- ===== src/Linux/Linker.antt =====
-- Shared objects: src/platform/linux/linker.c. A handle, a file and a symbol are numbers, `none` is
-- the null pointer.
use ada_interfaces.Base.{ℕ, Option, none, some, Proc, pure, ◌>>=◌, ◌>>◌}

-- The dynamic linker; `report` prints dlerror() to stderr.
pub record Calls (W : Type 0) : Type 0 where
  pub dlopen : ℕ → Proc W (Option ℕ)
  pub dlsym : Option ℕ → ℕ → Proc W (Option ℕ)
  pub report : ℕ → Proc W (Unit {0})

module _ {W : Type 0} (k : Calls W) where
  unfoldable pub gneiss_dlopen : ℕ → Proc W (Option ℕ)
  gneiss_dlopen file = do
    handle ← k.dlopen file
    elim handle [ none ↦ do k.report file; pure none | some h ↦ pure (some h) ]

  unfoldable pub gneiss_dlsym : Option ℕ → ℕ → Proc W (Option ℕ)
  gneiss_dlsym handle name = k.dlsym handle name
