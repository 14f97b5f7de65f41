-- ===== src/Genode/Memory.antt =====
-- The memory service for Genode: src/memory/server/genode/gneiss_memory_server.cc and
-- gneiss_memory_dispatcher.cc.
pub mod Attach
pub mod Client
use ada_interfaces.Base.{
  put_at, ℕ, Bool, true, Option, none, some, ◌==◌, if◌then◌else◌, ℤ, pos, Proc, pure, ◌>>=◌, ◌>>◌,
}
use ada_interfaces.Genode.Root.{
  Warning, Created, Rooted, Arguments, create_session, destroy_session,
}

-- An `Attached_ram_dataspace`: where it is attached, its size, and its capability.
pub record Dataspace : Type 0 where
  pub local_addr : ℕ
  pub size : ℤ
  pub cap : ℕ

-- `Memory_Server`
pub record Server : Type 0 where
  pub component : Option ℕ
  pub addr : Option ℕ
  pub size : ℤ

-- `Memory_Dispatcher`
pub record Dispatcher : Type 0 where
  pub root : Option ℕ
  pub env : Option ℕ
  pub dispatch : Option ℕ

-- `Memory_Dispatcher_Capability`
pub record Capability : Type 0 where
  pub session : Option ℕ
  pub size : ℤ

-- Memory_Server::Memory_Server
abbrev pub blank_server : Server
blank_server = record { component = none; addr = none; size = pos 0 }

-- Memory_Dispatcher::Memory_Dispatcher
abbrev pub blank_dispatcher : Dispatcher
blank_dispatcher = record { root = none; env = none; dispatch = none }

-- Genode's heap and parent. A component is made with its dataspace of the size asked for; `none`
-- is the null pointer of a failed `create2`.
pub record Calls (W : Type 0) : Type 0 where
  pub sizeof_component : ℕ
  pub construct_factory : Option ℕ → Proc W (Unit {0})
  pub create_component : ℤ → Proc W (Option (ℕ × Dataspace))
  pub destroy_component : Option ℕ → Proc W (Unit {0})
  pub create_root : Option ℕ → Proc W (Option ℕ)
  pub announce : Option ℕ → Option ℕ → Proc W (Unit {0})

-- The objects of the service; `dataspaces` is the member `_ds` of each component.
pub record Service (W : Type 0) : Type 0 where
  pub os : W
  pub factory : Bool
  pub dispatcher : Dispatcher
  pub servers : ℕ → Server
  pub dataspaces : ℕ → Dataspace

abbrev pub State : Type 0 → Type 0
State W = Rooted (Service W)

abbrev pub lift : {W A : Type 0} → Proc W A → Proc (State W) A
lift m s = ((m s.rest.os).0, record s { rest = record s.rest { os = (m s.rest.os).1 } })

abbrev pub set_server : {W : Type 0} → ℕ → Server → Proc (State W) (Unit {0})
set_server server v s =
    (tt, record s { rest = record s.rest { servers = put_at s.rest.servers server v } })

module _ {W : Type 0} (k : Calls W) where
  -- check_factory
  unfoldable pub check_factory : Option ℕ → Proc (State W) (Unit {0})
  check_factory env s =
      if s.rest.factory
      then (tt, s)
      else (do
        lift (k.construct_factory env)
        λ (t : State W). (tt, record t { rest = record t.rest { factory = true } }))
          s

  -- Memory_Component::Memory_Component writes to the server, then its caller does.
  unfoldable pub construct_component : ℕ → Option (ℕ × Dataspace) → Proc (State W) (Unit {0})
  construct_component server none s =
      set_server server (record (s.rest.servers server) { component = none }) s
  construct_component server (some (c, ds)) s =
      (do
        λ (t : State W).
            (tt, record t { rest = record t.rest { dataspaces = put_at t.rest.dataspaces c ds } })
        set_server server
            (record { component = some c; addr = some ds.local_addr; size = ds.size }))
        s

  -- Memory_Server::initialize
  unfoldable pub server_initialize : ℕ → Option ℕ → ℤ → Proc (State W) (Unit {0})
  unfolding check_factory construct_component
  server_initialize server env size = do
    check_factory env
    c ← lift (k.create_component size)
    construct_component server c

  -- Memory_Server::component
  unfoldable pub server_component : ℕ → Proc (State W) (Option ℕ)
  server_component server s = ((s.rest.servers server).component, s)

  -- Memory_Server::finalize
  unfoldable pub server_finalize : ℕ → Proc (State W) (Unit {0})
  server_finalize server s =
      let old = s.rest.servers server in
      (do
        lift (k.destroy_component old.component)
        set_server server (record { component = none; addr = none; size = old.size }))
        s

  -- Memory_Component::dataspace
  unfoldable pub component_dataspace : ℕ → Proc (State W) ℕ
  component_dataspace c s = ((s.rest.dataspaces c).cap, s)

  -- Memory_Dispatcher::initialize
  unfoldable pub dispatcher_initialize : Option ℕ → Option ℕ → Proc (State W) (Unit {0})
  unfolding check_factory
  dispatcher_initialize env dispatch = do
    check_factory env
    root ← lift (k.create_root env)
    λ (s : State W). (
      tt,
      record s {
        rest = record s.rest {
          dispatcher = elim root [
            | none ↦ blank_dispatcher
            | some r ↦ record { root = some r; env = env; dispatch = dispatch }
          ];
        };
      },
    )

  -- Memory_Dispatcher::session_initialize
  unfoldable pub session_initialize : Capability → ℕ → Proc (State W) (Unit {0})
  session_initialize capability server s =
      server_initialize server s.rest.dispatcher.env capability.size s

  -- Memory_Dispatcher::register_service
  unfoldable pub register_service : Proc (State W) (Unit {0})
  register_service s = lift (k.announce s.rest.dispatcher.env s.rest.dispatcher.root) s

  -- Memory_Dispatcher::accept
  unfoldable pub accept : ℕ → Proc (State W) (Unit {0})
  accept server s = (tt, record s { accepted = (s.rest.servers server).component })

-- Memory_Root::_create_session and Memory_Root::_destroy_session; `memory_size` is the number in
-- the session's arguments.
module _ {W A L : Type 0} (k : Calls W) (args : Arguments A L) (memory_size : A → ℤ)
    (warn : Warning → A → Proc W (Unit {0}))
    (dispatch : Capability → L → L → Proc (State W) (Unit {0})) where
  unfoldable pub create_memory_session : A → Proc (State W) Created
  create_memory_session a =
      create_session args (λ r a. lift (warn r a)) dispatch k.sizeof_component
        (record { session = none; size = memory_size a }) a

  unfoldable pub destroy_memory_session : ℕ → Proc (State W) (Unit {0})
  destroy_memory_session session =
      destroy_session args (λ r a. lift (warn r a)) dispatch
        (record { session = some session; size = pos 0 })
