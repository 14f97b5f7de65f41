-- ===== src/Genode/Block/Server.antt =====
-- The block server for Genode: src/block/server/genode/block_server.cc and block_server.h, and
-- src/block/genode/block_root.h.
pub mod Stream
pub mod Serving
pub mod Content
pub mod Geometry
use ada_interfaces.Genode.Factory
use ada_interfaces.Genode.Factory.{check_factory, create, destroy_void}
use ada_interfaces.Base.{
  ℕ, ◌+◌, ◌-◌, Bool, true, false, Option, none, some, ltb, leb, ◌&&◌, if◌then◌else◌, ℤ, pos,
  is_nonzero, Proc, pure, ◌>>=◌, ◌>>◌,
}

-- Genode's `Block::Request`, with the fields of the record that block_server.cc copies.
pub record Request : Type 0 where
  pub kind : ℕ
  pub block_number : ℕ
  pub block_count : ℕ
  pub success : Bool
  pub offset : ℕ
  pub tag : ℕ

-- Request_stream::Response
pub data Response : Type 0 where
  accepted rejected retry : Response

-- Block::Session::Info
pub record Info : Type 0 where
  pub block_size : ℕ
  pub block_count : ℕ
  pub align_log2 : ℕ
  pub writeable : Bool

-- `Block::Server`; pointers to objects and functions are addresses.
pub record Server : Type 0 where
  pub session : Option ℕ
  pub callback : Option ℕ
  pub block_count : Option ℕ
  pub block_size : Option ℕ
  pub writable : Option ℕ

-- The variables that the function in process_request captures.
pub record Taken : Type 0 where
  pub success : ℤ
  pub req : Request

-- Genode's entrypoint, heap and request stream, and the functions of the server at an address. A
-- function that the source hands to the stream is one of its captured variables here.
pub record Calls (W : Type 0) : Type 0 where
  pub factory : Factory.Calls W
  pub get_attr_64 : Option ℕ → Server → Proc W ℕ
  pub get_writable : Option ℕ → Server → Proc W Bool
  pub call : Option ℕ → Proc W (Unit {0})
  pub sizeof_root : ℕ
  -- the signal handler and the dataspace of some size in a root; false if one throws
  pub create_members : ℕ → ℕ → Proc W Bool
  pub destroy_members : ℕ → Proc W (Unit {0})
  -- the constructor of the request stream in the root; false if it throws
  pub start_stream : ℕ → Info → Proc W Bool
  pub manage : ℕ → Proc W (Unit {0})
  pub dissolve : ℕ → Proc W (Unit {0})
  pub tx_cap : ℕ → Proc W ℕ
  pub session_cap : ℕ → Proc W ℕ
  pub with_requests : Option ℕ → (Request → Taken → Response × Taken) → Taken → Proc W Taken
  -- the function answers with what it submits to the slot, if anything
  pub try_acknowledge : Option ℕ → (ℤ → Option Request × ℤ) → ℤ → Proc W ℤ
  -- address and size of a request's content, where the function is called
  pub with_content : Option ℕ → Request → Proc W (Option (ℕ × ℕ))
  -- rw(this, id, ptr, size)
  pub call_rw : Option ℕ → Server → ℕ → ℕ → ℕ → Proc W (Unit {0})
  pub wakeup_client_if_needed : Option ℕ → Proc W (Unit {0})

-- The world of the calls, and the bytes in memory.
pub record Machine (W : Type 0) : Type 0 where
  pub os : W
  pub memory : ℕ → ℕ

abbrev pub lift : {W A : Type 0} → Proc W A → Proc (Machine W) A
lift m s = ((m s.os).0, record s { os = (m s.os).1 })

-- Genode::memcpy. In C++ it is undefined for regions that overlap or go beyond the address space;
-- here they are copied at once, and theorems assume that regions are disjoint.
unfoldable pub memcpy : {W : Type 0} → ℕ → ℕ → ℕ → Proc (Machine W) (Unit {0})
memcpy dst src size s = (
  tt,
  record s {
    memory =
        λ a. if leb dst a && ltb a (dst + size) then s.memory (src + (a - dst)) else s.memory a;
  },
)

-- What read does to the content, where the stream has it.
unfoldable pub copy_in : {W : Type 0} → ℕ → ℕ → ℕ → Option (ℕ × ℕ) → Proc (Machine W) (Unit {0})
unfolding memcpy
copy_in buffer offset size none = pure tt
copy_in buffer offset size (some (ptr, n)) = memcpy (ptr + offset) buffer size

-- What write does.
unfoldable pub copy_out : {W : Type 0} → ℕ → ℕ → ℕ → Option (ℕ × ℕ) → Proc (Machine W) (Unit {0})
unfolding memcpy
copy_out buffer offset size none = pure tt
copy_out buffer offset size (some (ptr, n)) = memcpy buffer (ptr + offset) size

abbrev pub blank : Server
blank = record {
  session = none;
  callback = none;
  block_count = none;
  block_size = none;
  writable = none;
}

-- What process_request hands to with_requests.
unfoldable pub take_one : Request → Taken → Response × Taken
take_one r t =
    if is_nonzero t.success then (retry, t) else (accepted, record { success = pos 1; req = r })

-- What acknowledge hands to try_acknowledge.
unfoldable pub submit_one : Request → ℤ → Option Request × ℤ
submit_one req success = if is_nonzero success then (none, success) else (some req, pos 1)

module _ {W : Type 0} (k : Calls W) where
  -- The argument of Request_stream in Block_session_component::Block_session_component.
  unfoldable pub stream_info : Server → Proc W Info
  stream_info server = do
    size ← k.get_attr_64 server.block_size server
    count ← k.get_attr_64 server.block_size server
    writeable ← k.get_writable server.writable server
    pure (record { block_size = size; block_count = count; align_log2 = 0; writeable = writeable })

  -- Block_session_component::info
  unfoldable pub session_info : Server → Proc W Info
  session_info server = do
    size ← k.get_attr_64 server.block_size server
    count ← k.get_attr_64 server.block_count server
    writeable ← k.get_writable server.writable server
    pure (record { block_size = size; block_count = count; align_log2 = 0; writeable = writeable })

  -- Block_session_component::Block_session_component; false if it throws.
  unfoldable pub construct_session : Server → ℕ → Proc W Bool
  unfolding stream_info
  construct_session server root = do
    info ← stream_info server
    started ← k.start_stream root info
    if started then (do k.manage root; pure true) else pure false

  -- The session of a root with its members, which are destroyed again where it throws.
  unfoldable pub construct_within : Server → ℕ → Bool → Proc W Bool
  unfolding construct_session
  construct_within server root false = pure false
  construct_within server root true = do
    constructed ← construct_session server root
    if constructed then pure true else (do k.destroy_members root; pure false)

  -- Block_root::Block_root
  unfoldable pub construct_root : Server → ℕ → ℕ → Proc W Bool
  unfolding construct_within
  construct_root server size root = do
    members ← k.create_members root size
    construct_within server root members

  -- Block_session_component::tx_cap, of the session in a root
  unfoldable pub session_tx_cap : ℕ → Proc W ℕ
  session_tx_cap root = k.tx_cap root

  -- Block_root::handler
  unfoldable pub handler : Server → Proc W (Unit {0})
  handler server = k.call server.callback

  -- Block_root::cap
  unfoldable pub root_cap : ℕ → Proc W ℕ
  root_cap root = k.session_cap root

  -- Block::Server::initialize; a constructor reads the fields set before.
  unfoldable pub initialize :
      Option ℕ → ℕ → Option ℕ → Option ℕ → Option ℕ → Option ℕ → Server → Proc W Server
  unfolding construct_root
  initialize env size callback block_count block_size writable server = do
    let named = record server {
      callback = callback;
      block_count = block_count;
      block_size = block_size;
      writable = writable;
    }
    check_factory k.factory env
    session ← create k.factory k.sizeof_root (construct_root named size)
    pure (record named { session = session })

  -- Block_session_component::~Block_session_component, and the other members of the root
  unfoldable pub destroy_root : ℕ → Proc W (Unit {0})
  destroy_root root = do k.dissolve root; k.destroy_members root

  -- Block::Server::finalize
  unfoldable pub finalize : Server → Proc W Server
  unfolding destroy_root
  finalize server = do destroy_void k.factory destroy_root server.session; pure blank

  -- Block::Server::process_request: the new content of `*success` and of `*request`
  unfoldable pub process_request : Server → Request → Proc W (ℤ × Request)
  unfolding take_one
  process_request server request = do
    t ← k.with_requests server.session take_one (record { success = pos 0; req = request })
    pure (t.success, t.req)

  -- Block::Server::acknowledge: the new content of `*success` and of `*request`
  unfoldable pub acknowledge : Server → Request → ℤ → Proc W (ℤ × Request)
  unfolding submit_one
  acknowledge server request success = do
    let req = record request { success = is_nonzero success }
    s ← k.try_acknowledge server.session (submit_one req) (pos 0)
    pure (s, req)

  -- Block::Server::unblock_client
  unfoldable pub unblock_client : Server → Proc W (Unit {0})
  unblock_client server = k.wakeup_client_if_needed server.session

  -- Block::Server::read_write
  unfoldable pub read_write : Server → Request → ℕ → Option ℕ → Proc W (Unit {0})
  read_write server request id rw_callback = do
    content ← k.with_content server.session request
    elim content [ none ↦ pure tt | some (ptr, size) ↦ k.call_rw rw_callback server id ptr size ]

  -- Block::Server::read
  unfoldable pub read : Server → Request → ℕ → ℕ → ℕ → Proc (Machine W) (Unit {0})
  unfolding copy_in
  read server request buffer offset size = do
    content ← lift (k.with_content server.session request)
    copy_in buffer offset size content

  -- Block::Server::write
  unfoldable pub write : Server → Request → ℕ → ℕ → ℕ → Proc (Machine W) (Unit {0})
  unfolding copy_out
  write server request buffer offset size = do
    content ← lift (k.with_content server.session request)
    copy_out buffer offset size content
