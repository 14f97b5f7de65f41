-- ===== src/Genode/Memory/Client.antt =====
-- The memory client for Genode: src/memory/client/genode/gneiss_memory_client.cc and
-- gneiss_memory_client.h.
pub mod Quota
pub mod Lifetime
use ada_interfaces.Genode.Factory
use ada_interfaces.Genode.Factory.{check_factory}
use ada_interfaces.Base.{
  ℕ, ◌+◌, ◌-◌, ◌*◌, ◌%◌, ltb, if◌then◌else◌, negsuc, ◌^◌, Option, none, some, List, ℤ, pos, to_size,
  Proc, pure, ◌>>=◌, ◌>>◌,
}

-- What a connection puts into the arguments of its session.
pub record SessionArgs : Type 0 where
  pub ram_quota : ℕ
  pub cap_quota : ℕ
  pub label : List ℕ
  pub memory_size : ℤ

-- `Memory_Connection`
pub record Connection : Type 0 where
  pub session : ℕ
  pub addr : ℕ
  pub size : ℕ

-- Genode's parent, heap and region map; `none` where a call throws.
pub record Calls (W : Type 0) : Type 0 where
  pub factory : Factory.Calls W
  pub open_session : Option ℕ → SessionArgs → Proc W (Option ℕ)
  pub dataspace : ℕ → Proc W ℕ
  pub attach : Option ℕ → ℕ → Proc W (Option ℕ)
  pub close_session : ℕ → Proc W (Unit {0})
  pub destroy_connection : Option Connection → Proc W (Unit {0})

-- A 64-bit value as a `long long`: printed by %lld, or returned.
unfoldable pub to_long : ℕ → ℤ
to_long n = if ltb n (2 ^ 63) then pos n else negsuc (2 ^ 64 - n - 1)

-- Memory_Connection::RAM_QUOTA
abbrev pub ram_quota : ℕ
ram_quota = 8 * 1024

-- Memory_Session::CAP_QUOTA
abbrev pub cap_quota : ℕ
cap_quota = 3

-- The values that the constructor of a connection hands to the format string of Connection, in its
-- order; `size` has the unsigned type `size_t`. Genode prints them, and the text and its parsing are
-- outside of the model.
unfoldable pub session_args : List ℕ → ℕ → SessionArgs
unfolding to_long
session_args label size = record {
  ram_quota = (ram_quota + size) % 2 ^ 64;
  cap_quota = cap_quota;
  label = label;
  memory_size = to_long size;
}

module _ {W : Type 0} (k : Calls W) where
  -- Memory_Session_Client::dataspace
  unfoldable pub session_dataspace : ℕ → Proc W ℕ
  session_dataspace session = k.dataspace session

  -- The connection on a session whose dataspace was attached at an address, or was not.
  unfoldable pub attached : ℕ → ℕ → Option ℕ → Proc W (Option Connection)
  attached session size none = do k.close_session session; pure none
  attached session size (some addr) =
      pure (some (record { session = session; addr = addr; size = size }))

  -- The members of the connection, on a session that was opened.
  unfoldable pub attach_session : Option ℕ → ℕ → Option ℕ → Proc W (Option Connection)
  unfolding attached session_dataspace
  attach_session env size none = pure none
  attach_session env size (some session) = do
    cap ← session_dataspace session
    addr ← k.attach env cap
    attached session size addr

  -- Memory_Connection::Memory_Connection, through create2. A heap without room for the connection
  -- has the same outcome as a session that is refused, and is no case of its own.
  unfoldable pub connect : Option ℕ → List ℕ → ℕ → Proc W (Option Connection)
  unfolding attach_session session_args
  connect env label size = do
    session ← k.open_session env (session_args label size)
    attach_session env size session

  -- Memory_Client::initialize; the result is `_session`.
  unfoldable pub initialize : Option ℕ → List ℕ → ℤ → Proc W (Option Connection)
  unfolding connect
  initialize env label size = do check_factory k.factory env; connect env label (to_size size)

  -- Memory_Connection::local_addr and size
  unfoldable pub local_addr : Connection → ℕ
  local_addr c = c.addr

  unfoldable pub connection_size : Connection → ℕ
  connection_size c = c.size

  -- Memory_Client::address; a null `_session` is undefined: `none`.
  unfoldable pub address : Option Connection → Option ℕ
  unfolding local_addr
  address none = none
  address (some c) = some (local_addr c)

  -- Memory_Client::size; a null `_session` is undefined: `none`.
  unfoldable pub size : Option Connection → Option ℤ
  unfolding to_long connection_size
  size none = none
  size (some c) = some (to_long (connection_size c))

  -- Memory_Client::finalize
  unfoldable pub finalize : Option Connection → Proc W (Option Connection)
  finalize session = do k.destroy_connection session; pure none
