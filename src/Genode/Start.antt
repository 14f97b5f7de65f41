-- ===== src/Genode/Start.antt =====
-- Start and exit of a component on Genode: src/platform/genode/cai_main.cc and gneiss.h.
use ada_interfaces.Base.{ℕ, ℤ, minus_one, Proc, pure, ◌>>=◌, ◌>>◌}

-- `Gneiss::Capability`; functions, environments and signals are addresses.
pub record Capability : Type 0 where
  pub status : ℤ
  pub env : ℕ
  pub destruct : ℕ
  pub exit_signal : ℕ

-- Capability::RUNNING
abbrev pub running : ℤ
running = minus_one

-- Genode, the runtime and the component in Ada. What the component does may change the
-- capability that it is given.
pub record Calls (W : Type 0) : Type 0 where
  pub set_genode_env : ℕ → Proc W (Unit {0})
  pub exec_static_constructors : ℕ → Proc W (Unit {0})
  -- the address of componolit_interfaces_component_destruct
  pub component_destruct : ℕ
  -- the handler for exit_handler at the entrypoint of an environment
  pub exit_handler_signal : ℕ → Proc W ℕ
  pub adainit : Proc W (Unit {0})
  pub adafinal : Proc W (Unit {0})
  pub component_construct : Capability → Proc W Capability
  pub call : ℕ → Proc W (Unit {0})
  pub parent_exit : ℕ → ℤ → Proc W (Unit {0})
  pub submit : ℕ → Proc W (Unit {0})

module _ {W : Type 0} (k : Calls W) where
  -- Main::exit_handler
  unfoldable pub exit_handler : Capability → Proc W (Unit {0})
  exit_handler c = do k.call c.destruct; k.adafinal; k.parent_exit c.env c.status

  -- Main::Main
  unfoldable pub construct_main : ℕ → Proc W Capability
  construct_main env = do
    signal ← k.exit_handler_signal env
    k.adainit
    k.component_construct (record {
      status = running;
      env = env;
      destruct = k.component_destruct;
      exit_signal = signal;
    })

  -- Component::construct
  unfoldable pub construct : ℕ → Proc W Capability
  unfolding construct_main
  construct env = do k.set_genode_env env; k.exec_static_constructors env; construct_main env

  -- componolit_interfaces_component_vacate
  unfoldable pub component_vacate : Capability → ℤ → Proc W Capability
  component_vacate c status = do k.submit c.exit_signal; pure (record c { status = status })
