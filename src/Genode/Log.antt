-- ===== src/Genode/Log.antt =====
-- The log service and client for Genode: src/log/server/genode/gneiss_log_server.cc and
-- gneiss_log_dispatcher.cc, src/log/client/genode/gneiss_log_client.cc, and what they use of
-- src/platform/genode/cai_factory.h.
pub mod Lifetime
pub mod Session
pub mod Accounts
pub mod Pool
use ada_interfaces.Base.{
  put_at, ℕ, Bool, true, Option, none, some, List, ◌==◌, ◌||◌, length, if◌then◌else◌, store32, Proc,
  pure, ◌>>=◌, ◌>>◌, when, not,
}
use ada_interfaces.Genode.Root.{
  Warning, Created, Rooted, Arguments, create_session, destroy_session,
}

-- `Log_Server`; a pointer to an object or to a function is an address.
pub record Server : Type 0 where
  pub component : Option ℕ
  pub write : Option ℕ

-- `Log_Dispatcher`
pub record Dispatcher : Type 0 where
  pub root : Option ℕ
  pub env : Option ℕ
  pub dispatch : Option ℕ

-- Log_Server::Log_Server, and what Log_Server::finalize leaves
abbrev pub blank_server : Server
blank_server = record { component = none; write = none }

-- Log_Dispatcher::Log_Dispatcher
abbrev pub blank_dispatcher : Dispatcher
blank_dispatcher = record { root = none; env = none; dispatch = none }

-- Genode's heap, parent and log service. `none` is the null pointer that `create2` returns when
-- an allocation or a constructor throws.
pub record Calls (W : Type 0) : Type 0 where
  pub sizeof_component : ℕ
  pub construct_factory : Option ℕ → Proc W (Unit {0})
  pub create_component : Proc W (Option ℕ)
  pub destroy_component : Option ℕ → Proc W (Unit {0})
  pub create_root : Option ℕ → Proc W (Option ℕ)
  pub announce : Option ℕ → Option ℕ → Proc W (Unit {0})
  pub create_connection : Option ℕ → List ℕ → Proc W (Option ℕ)
  pub destroy_connection : Option ℕ → Proc W (Unit {0})
  pub send : Option ℕ → List ℕ → Proc W (Unit {0})

-- The objects of the service: `owner` is the member `_server` of each component.
pub record Service (W : Type 0) : Type 0 where
  pub os : W
  pub factory : Bool
  pub dispatcher : Dispatcher
  pub servers : ℕ → Server
  pub owner : ℕ → ℕ

abbrev pub State : Type 0 → Type 0
State W = Rooted (Service W)

abbrev pub lift : {W A : Type 0} → Proc W A → Proc (State W) A
lift m s = ((m s.rest.os).0, record s { rest = record s.rest { os = (m s.rest.os).1 } })

abbrev pub set_server : {W : Type 0} → ℕ → Server → Proc (State W) (Unit {0})
set_server server v s =
    (tt, record s { rest = record s.rest { servers = put_at s.rest.servers server v } })

abbrev pub set_dispatcher : {W : Type 0} → Dispatcher → Proc (State W) (Unit {0})
set_dispatcher d s = (tt, record s { rest = record s.rest { dispatcher = d } })

module _ {W : Type 0} (k : Calls W) where
  -- check_factory
  unfoldable pub check_factory : Option ℕ → Proc (State W) (Unit {0})
  check_factory env s =
      if s.rest.factory
      then (tt, s)
      else (do
        lift (k.construct_factory env)
        λ (t : State W). (tt, record t { rest = record t.rest { factory = true } }))
          s

  -- The constructor of Log_Component, where there is memory for one.
  unfoldable pub construct_component : ℕ → Option ℕ → Proc (State W) (Option ℕ)
  construct_component server none s = (none, s)
  construct_component server (some a) s =
      (some a, record s { rest = record s.rest { owner = put_at s.rest.owner a server } })

  -- _factory->create2<Log_Component>(server)
  unfoldable pub create_component : ℕ → Proc (State W) (Option ℕ)
  unfolding construct_component
  create_component server = do c ← lift k.create_component; construct_component server c

  -- Log_Server::initialize
  unfoldable pub server_initialize : ℕ → Option ℕ → Option ℕ → Proc (State W) (Unit {0})
  server_initialize server none write = pure tt
  server_initialize server (some component) none = pure tt
  server_initialize server (some component) (some write) =
      set_server server (record { component = some component; write = some write })

  -- Log_Server::component
  unfoldable pub server_component : ℕ → Proc (State W) (Option ℕ)
  server_component server s = ((s.rest.servers server).component, s)

  -- Log_Server::finalize
  unfoldable pub server_finalize : ℕ → Proc (State W) (Unit {0})
  server_finalize server = set_server server blank_server

  -- Log_Component::write. `call` is the function at an address, which gets the server, the string
  -- and its length and stores an `int`; `stack` is what `size` held before.
  unfoldable pub component_write :
      (Option ℕ → ℕ → List ℕ → ℕ → Proc (State W) ℕ) → ℕ → List ℕ → ℕ → Proc (State W) ℕ
  component_write call component text stack s =
      let server = s.rest.owner component in
      (do
        size ← call (s.rest.servers server).write server text (length text)
        pure (store32 stack (some size)))
        s

  -- Log_Dispatcher::initialize
  unfoldable pub dispatcher_initialize : Option ℕ → Option ℕ → Proc (State W) (Unit {0})
  unfolding check_factory
  dispatcher_initialize env dispatch = do
    check_factory env
    root ← lift (k.create_root env)
    set_dispatcher (elim root [
      | none ↦ blank_dispatcher
      | some r ↦ record { root = some r; env = env; dispatch = dispatch }
    ])

  -- Log_Dispatcher::register_service
  unfoldable pub register_service : Proc (State W) (Unit {0})
  register_service s = lift (k.announce s.rest.dispatcher.env s.rest.dispatcher.root) s

  -- Log_Dispatcher::accept and Log_Root::accept
  unfoldable pub accept : ℕ → Proc (State W) (Unit {0})
  accept server s = (tt, record s { accepted = (s.rest.servers server).component })

  -- Log_Dispatcher::session_initialize
  unfoldable pub session_initialize : ℕ → Option ℕ → Proc (State W) (Unit {0})
  unfolding check_factory create_component server_initialize
  session_initialize server write s =
      (do
        check_factory s.rest.dispatcher.env
        c ← create_component server
        server_initialize server c write)
        s

  -- Log_Dispatcher::cleanup
  unfoldable pub cleanup : ℕ → Proc (State W) (Unit {0})
  unfolding server_finalize
  cleanup server s =
      (do lift (k.destroy_component (s.rest.servers server).component); server_finalize server) s

-- `Log_Client`; `_buffer` and `_cursor` are never used.
module _ {W : Type 0} (k : Calls W) where
  -- Log_Client::initialize; the result is `_session`.
  unfoldable pub client_initialize : Option ℕ → List ℕ → Proc (State W) (Option ℕ)
  unfolding check_factory
  client_initialize env label = do check_factory k env; lift (k.create_connection env label)

  -- Log_Client::write
  unfoldable pub client_write : Option ℕ → List ℕ → Proc (State W) (Unit {0})
  client_write session msg = lift (k.send session msg)

  -- Log_Client::finalize
  unfoldable pub client_finalize : Option ℕ → Proc (State W) (Option ℕ)
  client_finalize session = do lift (k.destroy_connection session); pure none

-- Log_Root::_create_session and Log_Root::_destroy_session. The capability is the session, null
-- for a new one; `dispatch` is the function at `_dispatch`.
module _ {W A L : Type 0} (k : Calls W) (args : Arguments A L)
    (warn : Warning → A → Proc W (Unit {0}))
    (dispatch : Option ℕ → L → L → Proc (State W) (Unit {0})) where
  unfoldable pub create_log_session : A → Proc (State W) Created
  create_log_session = create_session args (λ r a. lift (warn r a)) dispatch k.sizeof_component none

  unfoldable pub destroy_log_session : ℕ → Proc (State W) (Unit {0})
  destroy_log_session session =
      destroy_session args (λ r a. lift (warn r a)) dispatch (some session)
