-- ===== src/Genode/Message/Client.antt =====
-- The message client for Genode: src/message/client/genode/gneiss_message_client.cc and
-- gneiss_message_client.h.
pub mod Rpc
use ada_interfaces.Genode.Factory
use ada_interfaces.Genode.Factory.{check_factory}
use ada_interfaces.Base.{ℕ, Bool, Option, none, some, List, ℤ, of_bool, Proc, pure, ◌>>=◌, ◌>>◌}

-- What a connection puts into the arguments of its session.
pub record SessionArgs : Type 0 where
  pub ram_quota : ℕ
  pub cap_quota : ℕ
  pub label : List ℕ

-- `Message_Client`
pub record Client : Type 0 where
  pub connection : Option ℕ
  pub event : Option ℕ

-- Genode's parent, heap, entrypoint and RPC. A session is the address of the component that
-- answers its calls.
pub record Calls (S : Type 0) : Type 0 where
  pub factory : Factory.Calls S
  -- the session that the parent gives for the arguments; `none` where it throws
  pub open_session : Option ℕ → SessionArgs → Proc S (Option ℕ)
  -- a signal handler of the connection, for the client's event or for none
  pub create_handler : Option ℕ → Bool → Proc S ℕ
  pub destroy_connection : Option ℕ → Proc S (Unit {0})
  pub rpc_sigh : ℕ → Option ℕ → Proc S (Unit {0})
  -- the calls of a connection, which go to its session
  pub rpc_write : Option ℕ → List ℕ → Proc S (Unit {0})
  pub rpc_read : Option ℕ → Proc S (List ℕ)
  pub rpc_avail : Option ℕ → Proc S Bool
  pub call : Option ℕ → Proc S (Unit {0})

-- Message_Client::Message_Client
abbrev pub blank : Client
blank = record { connection = none; event = none }

-- Message_Connection::RAM_QUOTA
abbrev pub ram_quota : ℕ
ram_quota = 8192

-- Message_Session::CAP_QUOTA
abbrev pub cap_quota : ℕ
cap_quota = 3

-- The arguments that both constructors of a connection print.
unfoldable pub session_args : List ℕ → SessionArgs
session_args label = record { ram_quota = ram_quota; cap_quota = cap_quota; label = label }

module _ {S : Type 0} (k : Calls S) where
  -- Message_Session_Client::sigh, write, read and avail
  unfoldable pub session_sigh : ℕ → Option ℕ → Proc S (Unit {0})
  session_sigh session cap = k.rpc_sigh session cap

  unfoldable pub session_write : Option ℕ → List ℕ → Proc S (Unit {0})
  session_write session buf = k.rpc_write session buf

  unfoldable pub session_read : Option ℕ → Proc S (List ℕ)
  session_read session = k.rpc_read session

  unfoldable pub session_avail : Option ℕ → Proc S Bool
  session_avail session = k.rpc_avail session

  -- The body of Message_Connection::Message_Connection, on the session that was opened.
  unfoldable pub register : Option ℕ → Option ℕ → Proc S (Unit {0})
  unfolding session_sigh
  register env none = pure tt
  register env (some session) = do
    event_sigh ← k.create_handler env Bool.true
    session_sigh session (some event_sigh)

  -- Message_Connection::Message_Connection with a client
  unfoldable pub connect : Option ℕ → List ℕ → Proc S (Option ℕ)
  unfolding session_args register
  connect env label = do
    session ← k.open_session env (session_args label)
    register env session
    pure session

  -- Message_Connection::Message_Connection without a client
  unfoldable pub connect_dummy : Option ℕ → List ℕ → Proc S (Option ℕ)
  unfolding session_args
  connect_dummy env label = do
    session ← k.open_session env (session_args label)
    _ ← k.create_handler env Bool.false
    pure session

  -- Message_Connection::event and dummy_event
  unfoldable pub event : Client → Proc S (Unit {0})
  event client = k.call client.event

  unfoldable pub dummy_event : Proc S (Unit {0})
  dummy_event = pure tt

  -- Message_Client::initialize
  unfoldable pub initialize : Option ℕ → List ℕ → Client → Proc S Client
  unfolding connect
  initialize env label client = do
    check_factory k.factory env
    connection ← connect env label
    pure (record client { connection = connection })

  -- Message_Client::finalize
  unfoldable pub finalize : Client → Proc S Client
  finalize client = do k.destroy_connection client.connection; pure client

  -- Message_Client::write
  unfoldable pub write : Client → List ℕ → Proc S (Unit {0})
  unfolding session_write
  write client buf = session_write client.connection buf

  -- Message_Client::read: the new content of the buffer
  unfoldable pub read : Client → Proc S (List ℕ)
  unfolding session_read
  read client = session_read client.connection

  -- Message_Client::avail
  unfoldable pub avail : Client → Proc S ℤ
  unfolding session_avail
  avail client = do there ← session_avail client.connection; pure (of_bool there)
