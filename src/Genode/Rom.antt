-- ===== src/Genode/Rom.antt =====
-- The ROM client for Genode: src/rom/client/genode/gneiss_rom_client.cc.
use ada_interfaces.Genode.Factory
use ada_interfaces.Genode.Factory.{check_factory}
use ada_interfaces.Base.{ℕ, Option, none, List, [], ◌∷◌, Proc, pure, ◌>>=◌, ◌>>◌}

-- `Rom_Client`
pub record RomClient : Type 0 where
  pub rom : Option ℕ
  pub read : Option ℕ

-- Rom_Client::Rom_Client
abbrev pub blank : RomClient
blank = record { rom = none; read = none }

-- Genode's heap and attached ROM dataspaces.
pub record Calls (W : Type 0) : Type 0 where
  pub factory : Factory.Calls W
  pub attach : Option ℕ → List ℕ → Proc W (Option ℕ)
  pub detach : Option ℕ → Proc W (Unit {0})
  pub update_rom : Option ℕ → Proc W (Unit {0})
  pub local_addr : Option ℕ → Proc W ℕ
  pub size : Option ℕ → Proc W ℕ
  -- the function at an address, called with the client, address, size and context
  pub call_read : Option ℕ → RomClient → ℕ → ℕ → ℕ → Proc W (Unit {0})

-- "config"
abbrev pub config : List ℕ
config = b'c' ∷ b'o' ∷ b'n' ∷ b'f' ∷ b'i' ∷ b'g' ∷ []

-- The name of the ROM for a label.
unfoldable pub rom_name : List ℕ → List ℕ
rom_name [] = config
rom_name (c ∷ cs) = c ∷ cs

module _ {W : Type 0} (k : Calls W) where
  -- Rom_Client::initialize
  unfoldable pub initialize : Option ℕ → List ℕ → RomClient → Proc W RomClient
  unfolding rom_name
  initialize env label client = do
    check_factory k.factory env
    rom ← k.attach env (rom_name label)
    pure (record client { rom = rom })

  -- Rom_Client::update; the arguments of `_read` are evaluated from the left here.
  unfoldable pub update : RomClient → ℕ → Proc W (Unit {0})
  update client ctx = do
    k.update_rom client.rom
    addr ← k.local_addr client.rom
    size ← k.size client.rom
    k.call_read client.read client addr size ctx

  -- Rom_Client::finalize
  unfoldable pub finalize : RomClient → Proc W RomClient
  finalize client = do k.detach client.rom; pure client
