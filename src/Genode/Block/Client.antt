-- ===== src/Genode/Block/Client.antt =====
-- The block client for Genode: src/block/client/genode/block_client.cc and block_client.h.
pub mod Packets
use ada_interfaces.Genode.Factory
use ada_interfaces.Genode.Factory.{check_factory}
use ada_interfaces.Base.{
  ℕ, ◌*◌, ◌%◌, ◌^◌, Bool, true, false, ◌||◌, Option, none, some, List, ◌==◌, if◌then◌else◌, ℤ, pos,
  int_eq, of_bool, Proc, pure, ◌>>=◌, ◌>>◌,
}

-- Genode's `Block::Packet_descriptor`: the fields of Packet_Descriptor in cxx-block-client.ads, and
-- whether the request succeeded.
pub record Packet : Type 0 where
  pub offset : ℕ
  pub bytes : ℕ
  pub opcode : ℤ
  pub tag : ℕ
  pub block_number : ℕ
  pub block_count : ℕ
  pub success : Bool

-- Block::Session::Info of the connection
pub record Info : Type 0 where
  pub block_size : ℕ
  pub block_count : ℕ
  pub writeable : Bool

-- `Block::Client`
pub record Client : Type 0 where
  pub block_count : ℕ
  pub block_size : ℕ
  pub device : Option ℕ
  pub callback : Option ℕ
  pub rw_callback : Option ℕ
  pub env : Option ℕ

-- Packet_descriptor::Opcode::READ and WRITE, as gneiss-block-client.adb numbers them.
abbrev pub opcode_read : ℤ
opcode_read = pos 0

abbrev pub opcode_write : ℤ
opcode_write = pos 1

-- opcode == READ || opcode == WRITE
unfoldable pub is_transfer : ℤ → Bool
is_transfer opcode = int_eq opcode opcode_read || int_eq opcode opcode_write

-- Genode's heap, block connection and packet stream.
pub record Calls (W : Type 0) : Type 0 where
  pub factory : Factory.Calls W
  -- the members of Block_session for an environment, buffer size and device label; `none` where
  -- one of them throws
  pub connect : Option ℕ → ℕ → List ℕ → Proc W (Option ℕ)
  -- the handler for both signals of the transmission channel
  pub sigh_ack_avail : ℕ → Proc W (Unit {0})
  pub sigh_ready_to_submit : ℕ → Proc W (Unit {0})
  pub destroy_session : Option ℕ → Proc W (Unit {0})
  -- free bytes of the session's allocator
  pub avail : Option ℕ → Proc W ℕ
  pub info : Option ℕ → Proc W Info
  -- a packet of some size, or an exception
  pub alloc_packet : Option ℕ → ℕ → Proc W (Option Packet)
  pub ack_avail : Option ℕ → Proc W Bool
  pub get_acked_packet : Option ℕ → Proc W Packet
  pub submit_packet : Option ℕ → Packet → Proc W (Unit {0})
  pub packet_content : Option ℕ → Packet → Proc W ℕ
  pub release_packet : Option ℕ → Packet → Proc W (Unit {0})
  -- the function at an address, called with client, operation, tag, block count and content
  pub call_rw : Option ℕ → Client → ℤ → ℕ → ℕ → ℕ → Proc W (Unit {0})
  pub call : Option ℕ → Proc W (Unit {0})

-- Client::Client
abbrev pub blank : Client
blank = record {
  block_count = 0;
  block_size = 0;
  device = none;
  callback = none;
  rw_callback = none;
  env = none;
}

-- The buffer size that Client::initialize asks for.
unfoldable pub buffer_bytes : ℕ → ℕ
buffer_bytes buffer_size = if buffer_size == 0 then 128 * 1024 else buffer_size

-- The descriptor that allocate_request builds from the packet of the stream.
unfoldable pub describe : Packet → ℤ → ℕ → ℕ → ℕ → Packet
describe p opcode start length tag = record p {
  opcode = opcode;
  block_number = start;
  block_count = length;
  tag = tag;
  success = false;
}

-- How update_response_queue reports: `*status`, and `*tag` and `*success` where they are set.
pub record Response : Type 0 where
  pub status : ℤ
  pub answer : Option (ℕ × ℤ)

module _ {W : Type 0} (k : Calls W) where
  -- The body of Block_session::Block_session.
  unfoldable pub construct_session : Option ℕ → Proc W (Unit {0})
  construct_session none = pure tt
  construct_session (some device) = do k.sigh_ack_avail device; k.sigh_ready_to_submit device

  -- Block_session::available
  unfoldable pub available : Option ℕ → Proc W ℕ
  available device = k.avail device

  -- The end of Client::initialize.
  unfoldable pub learn : Client → Proc W Client
  learn client = elim client.device [
    | none ↦ pure client
    | some device ↦ do
      size ← k.info client.device
      count ← k.info client.device
      pure (record client { block_size = size.block_size; block_count = count.block_count })
  ]

  -- Client::initialize; `none` for the device is the null pointer, and an empty label is used.
  unfoldable pub initialize :
      Option ℕ → Option (List ℕ) → Option ℕ → Option ℕ → ℕ → Client → Proc W Client
  unfolding buffer_bytes construct_session learn
  initialize env device callback rw_callback buffer_size client = do
    check_factory k.factory env
    session ←
        k.connect env (buffer_bytes buffer_size)
          (elim device [ none ↦ List.[] | some label ↦ label ])
    construct_session session
    learn (record client {
      callback = callback;
      rw_callback = rw_callback;
      env = env;
      device = session;
    })

  -- Client::finalize
  unfoldable pub finalize : Client → Proc W Client
  finalize client = do k.destroy_session client.device; pure blank

  -- What allocate_request does with the packet or the exception: the request and `*result`.
  unfoldable pub allocated : Packet → ℤ → ℕ → ℕ → ℕ → Option Packet → Packet × ℤ
  unfolding describe
  allocated request opcode start length tag none = (request, pos 1)
  allocated request opcode start length tag (some p) = (describe p opcode start length tag, pos 0)

  -- Client::allocate_request; unsigned 64-bit arithmetic.
  unfoldable pub allocate_request : Client → Packet → ℤ → ℕ → ℕ → ℕ → Proc W (Packet × ℤ)
  unfolding allocated
  allocate_request client request opcode start length tag =
      if is_transfer opcode
      then (do
        p ← k.alloc_packet client.device ((client.block_size * length) % 2 ^ 64)
        pure (allocated request opcode start length tag p))
      else pure (request, pos 0)

  -- Client::update_response_queue
  unfoldable pub update_response_queue : Client → Proc W Response
  update_response_queue client = do
    ready ← k.ack_avail client.device
    if ready
        then (do
          packet ← k.get_acked_packet client.device
          pure (record { status = pos 1; answer = some (packet.tag, of_bool packet.success) }))
        else pure (record { status = pos 0; answer = none })

  -- Client::enqueue
  unfoldable pub enqueue : Client → Packet → Proc W (Unit {0})
  enqueue client request = k.submit_packet client.device request

  -- Client::submit
  unfoldable pub submit : Client → Proc W (Unit {0})
  submit client = pure tt

  -- Client::read_write
  unfoldable pub read_write : Client → Packet → Proc W (Unit {0})
  read_write client request = do
    content ← k.packet_content client.device request
    k.call_rw client.rw_callback client request.opcode request.tag request.block_count content

  -- Client::release
  unfoldable pub release : Client → Packet → Proc W (Unit {0})
  release client request =
      if is_transfer request.opcode then k.release_packet client.device request else pure tt

  -- Client::writable, block_count and block_size
  unfoldable pub writable : Client → Proc W Bool
  writable client = do info ← k.info client.device; pure info.writeable

  unfoldable pub block_count : Client → ℕ
  block_count client = client.block_count

  unfoldable pub block_size : Client → ℕ
  block_size client = client.block_size

  -- Client::callback
  unfoldable pub run_callback : Client → Proc W (Unit {0})
  run_callback client = k.call client.callback
