-- ===== src/Genode/Factory.antt =====
-- The heap of a component on Genode: class Factory and check_factory of
-- src/platform/genode/cai_factory.h.
use ada_interfaces.Base.{
  ℕ, Bool, not, Option, none, some, if◌then◌else◌, Proc, pure, ◌>>=◌, ◌>>◌, when,
}

-- The functions that report that they are deprecated.
pub data Deprecated : Type 0 where
  create_used destroy_used : Deprecated

-- Genode's `Reconstructible<Factory>`, its sliced heap and its log.
pub record Calls (W : Type 0) : Type 0 where
  pub constructed : Proc W Bool
  -- Factory::Factory, in place
  pub construct : Option ℕ → Proc W (Unit {0})
  -- memory for an object of some size; `none` where the heap throws
  pub allocate : ℕ → Proc W (Option ℕ)
  pub free : ℕ → Proc W (Unit {0})
  pub warn : Deprecated → Proc W (Unit {0})

module _ {W : Type 0} (k : Calls W) where
  -- check_factory
  unfoldable pub check_factory : Option ℕ → Proc W (Unit {0})
  check_factory env = do there ← k.constructed; when (not there) (k.construct env)

  -- The constructor of an object in its memory; the memory is freed where it throws.
  unfoldable pub construct_in : (ℕ → Proc W Bool) → Option ℕ → Proc W (Option ℕ)
  construct_in constructor none = pure none
  construct_in constructor (some obj) = do
    done ← constructor obj
    if done then pure (some obj) else (do k.free obj; pure none)

  -- Factory::create2 of an object of some size; the constructor says if it does not throw.
  unfoldable pub create2 : ℕ → (ℕ → Proc W Bool) → Proc W (Option ℕ)
  unfolding construct_in
  create2 size constructor = do memory ← k.allocate size; construct_in constructor memory

  -- Factory::create
  unfoldable pub create : ℕ → (ℕ → Proc W Bool) → Proc W (Option ℕ)
  unfolding create2
  create size constructor = do k.warn create_used; create2 size constructor

  -- Factory::destroy, with the destructor; Genode's destroy does nothing at a null pointer.
  unfoldable pub destroy : (ℕ → Proc W (Unit {0})) → Option ℕ → Proc W (Unit {0})
  destroy destructor none = pure tt
  destroy destructor (some obj) = do destructor obj; k.free obj

  -- Factory::destroy of a `void *`
  unfoldable pub destroy_void : (ℕ → Proc W (Unit {0})) → Option ℕ → Proc W (Unit {0})
  unfolding destroy
  destroy_void destructor obj = do k.warn destroy_used; destroy destructor obj
