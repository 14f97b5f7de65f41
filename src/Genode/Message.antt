-- ===== src/Genode/Message.antt =====
-- The message service for Genode: src/message/server/genode/gneiss_message_server.cc and
-- gneiss_message_dispatcher.cc.
pub mod Signals
pub mod Client
use ada_interfaces.Base.{
  put_at, ℕ, Bool, true, Option, none, some, List, ◌==◌, if◌then◌else◌, replicate, ℤ, is_nonzero,
  Proc, pure, ◌>>=◌, ◌>>◌,
}
use ada_interfaces.Genode.Root.{
  Warning, Created, Rooted, Arguments, create_session, destroy_session,
}

-- The functions that a server gives to its component.
pub record Callbacks : Type 0 where
  pub avail : Option ℕ
  pub receive : Option ℕ
  pub get : Option ℕ

-- `Message_Component`; the capability `_signal` is `none` as long as it is not valid.
pub record Component : Type 0 where
  pub owner : ℕ
  pub signal : Option ℕ
  pub buffer : List ℕ
  pub callbacks : Callbacks

-- `Message_Dispatcher`
pub record Dispatcher : Type 0 where
  pub root : Option ℕ
  pub dispatch : Option ℕ
  pub env : Option ℕ

-- Genode's heap, parent and signals; `none` is the null pointer of a failed `create2`.
pub record Calls (W : Type 0) : Type 0 where
  pub sizeof_component : ℕ
  pub construct_factory : Option ℕ → Proc W (Unit {0})
  pub create_component : Proc W (Option ℕ)
  pub destroy_component : Option ℕ → Proc W (Unit {0})
  pub create_root : Option ℕ → Proc W (Option ℕ)
  pub announce : Option ℕ → Option ℕ → Proc W (Unit {0})
  -- Signal_transmitter(_signal).submit()
  pub submit : ℕ → Proc W (Unit {0})

-- The objects of the service; of a `Message_Server` its member `_component`.
pub record Service (W : Type 0) : Type 0 where
  pub os : W
  pub factory : Bool
  pub dispatcher : Dispatcher
  pub servers : ℕ → Option ℕ
  pub components : ℕ → Component

abbrev pub State : Type 0 → Type 0
State W = Rooted (Service W)

abbrev pub lift : {W A : Type 0} → Proc W A → Proc (State W) A
lift m s = ((m s.rest.os).0, record s { rest = record s.rest { os = (m s.rest.os).1 } })

abbrev pub set_component : {W : Type 0} → ℕ → Component → Proc (State W) (Unit {0})
set_component c v s =
    (tt, record s { rest = record s.rest { components = put_at s.rest.components c v } })

abbrev pub set_server : {W : Type 0} → ℕ → Option ℕ → Proc (State W) (Unit {0})
set_server server c s =
    (tt, record s { rest = record s.rest { servers = put_at s.rest.servers server c } })

-- Message_Component::Message_Component
abbrev pub new_component : ℕ → Callbacks → Component
new_component server callbacks = record {
  owner = server;
  signal = none;
  buffer = replicate 128 0;
  callbacks = callbacks;
}

module _ {W : Type 0} (k : Calls W) where
  -- check_factory
  unfoldable pub check_factory : Option ℕ → Proc (State W) (Unit {0})
  check_factory env s =
      if s.rest.factory
      then (tt, s)
      else (do
        lift (k.construct_factory env)
        λ (t : State W). (tt, record t { rest = record t.rest { factory = true } }))
          s

  -- The constructor, where there is memory for a component.
  unfoldable pub construct_component : ℕ → Callbacks → Option ℕ → Proc (State W) (Unit {0})
  construct_component server callbacks none = set_server server none
  construct_component server callbacks (some c) = do
    set_component c (new_component server callbacks)
    set_server server (some c)

  -- Message_Server::initialize
  unfoldable pub server_initialize : ℕ → Option ℕ → Callbacks → Proc (State W) (Unit {0})
  unfolding check_factory construct_component
  server_initialize server env callbacks = do
    check_factory env
    c ← lift k.create_component
    construct_component server callbacks c

  -- Message_Server::component
  unfoldable pub server_component : ℕ → Proc (State W) (Option ℕ)
  server_component server s = (s.rest.servers server, s)

  -- Message_Server::finalize
  unfoldable pub server_finalize : ℕ → Proc (State W) (Unit {0})
  server_finalize server s = lift (k.destroy_component (s.rest.servers server)) s

  -- Message_Component::sigh
  unfoldable pub component_sigh : ℕ → Option ℕ → Proc (State W) (Unit {0})
  component_sigh c sig s = set_component c (record (s.rest.components c) { signal = sig }) s

  -- Message_Component::signal
  unfoldable pub component_signal : ℕ → Proc (State W) (Unit {0})
  component_signal c s = elim (s.rest.components c).signal [
    | none ↦ (tt, s)
    | some sig ↦ lift (k.submit sig) s
  ]

  -- Message_Server::send_signal; `none` is the call through a null pointer.
  unfoldable pub send_signal : ℕ → Proc (State W) (Option (Unit {0}))
  unfolding component_signal
  send_signal server s = elim (s.rest.servers server) [
    | none ↦ (none, s)
    | some c ↦ (do component_signal c; pure (some tt)) s
  ]

  -- Message_Component::write; `call` is the function at an address.
  unfoldable pub component_write :
      (Option ℕ → ℕ → List ℕ → Proc (State W) (Unit {0})) → ℕ → List ℕ → Proc (State W) (Unit {0})
  component_write call c buf s =
      call (s.rest.components c).callbacks.receive (s.rest.components c).owner buf s

  -- Message_Component::read; `call` gets the old content of `_buffer` and returns the new one.
  unfoldable pub component_read :
      (Option ℕ → ℕ → List ℕ → Proc (State W) (List ℕ)) → ℕ → Proc (State W) (List ℕ)
  component_read call c s =
      let old = s.rest.components c in
      (do
        buf ← call old.callbacks.get old.owner old.buffer
        λ (t : State W).
            (buf, (set_component c (record (t.rest.components c) { buffer = buf }) t).1))
        s

  -- Message_Component::avail
  unfoldable pub component_avail : (Option ℕ → ℕ → Proc (State W) ℤ) → ℕ → Proc (State W) Bool
  component_avail call c s =
      (do
        n ← call (s.rest.components c).callbacks.avail (s.rest.components c).owner
        pure (is_nonzero n))
        s

  -- Message_Dispatcher::initialize
  unfoldable pub dispatcher_initialize : Option ℕ → Proc (State W) (Unit {0})
  unfolding check_factory
  dispatcher_initialize env = do
    check_factory env
    root ← lift (k.create_root env)
    λ (s : State W). (
      tt,
      record s {
        rest = record s.rest {
          dispatcher = record s.rest.dispatcher {
            root = root;
            env = elim root [ none ↦ none | some r ↦ env ];
          };
        };
      },
    )

  -- Message_Dispatcher::session_initialize
  unfoldable pub session_initialize : ℕ → Callbacks → Proc (State W) (Unit {0})
  session_initialize server callbacks s = server_initialize server s.rest.dispatcher.env callbacks s

  -- Message_Dispatcher::register_service
  unfoldable pub register_service : Proc (State W) (Unit {0})
  register_service s = lift (k.announce s.rest.dispatcher.env s.rest.dispatcher.root) s

  -- Message_Dispatcher::accept
  unfoldable pub accept : ℕ → Proc (State W) (Unit {0})
  accept server s = (tt, record s { accepted = s.rest.servers server })

-- Message_Root::_create_session and Message_Root::_destroy_session.
module _ {W A L : Type 0} (k : Calls W) (args : Arguments A L)
    (warn : Warning → A → Proc W (Unit {0}))
    (dispatch : Option ℕ → L → L → Proc (State W) (Unit {0})) where
  unfoldable pub create_message_session : A → Proc (State W) Created
  create_message_session =
      create_session args (λ r a. lift (warn r a)) dispatch k.sizeof_component none

  unfoldable pub destroy_message_session : ℕ → Proc (State W) (Unit {0})
  destroy_message_session session =
      destroy_session args (λ r a. lift (warn r a)) dispatch (some session)
