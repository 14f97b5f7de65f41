-- ===== src/Genode/Block/Dispatcher.antt =====
-- The block dispatcher for Genode: src/block/server/genode/block_dispatcher.cc and
-- block_dispatcher.h.
pub mod Cleanup
use mathlib.Core.Option
use ada_interfaces.Genode.Factory
use ada_interfaces.Genode.Factory.{check_factory}
use ada_interfaces.Base.{
  ℕ, Bool, true, false, Option, none, some, List, length, ◌==◌, leb, if◌then◌else◌, Proc, pure,
  ◌>>=◌, ◌>>◌,
}
use ada_interfaces.Genode.Block.Server
use ada_interfaces.Genode.Block.Server.{Server, root_cap}

-- `Dcap`: what a dispatcher is asked; the label is the text that the pointer stands for.
pub record Dcap : Type 0 where
  pub size : ℕ
  pub label : Option (List ℕ)
  pub root : Option ℕ
  pub cap : Option ℕ

-- `Block::Root` at an address; its member `_dispatcher` is the dispatcher that holds it.
pub record Root : Type 0 where
  pub address : ℕ
  pub env : Option ℕ

-- `Block::Dispatcher`
pub record Dispatcher : Type 0 where
  pub root : Option Root
  pub handler : Option ℕ

-- The two reports of Root::session.
pub data Warning : Type 0 where
  buffer_exceeds_quota session_failed : Warning

-- The capability that Root::session returns, or the exception that it throws.
pub data Outcome : Type 0 where
  granted : ℕ → Outcome
  insufficient_ram_quota service_denied : Outcome

-- Genode's parsing of arguments `A`, its heap and its parent, and `dispatch`, which is written in
-- Ada and calls the handler.
pub record Calls (W A : Type 0) : Type 0 where
  -- Arg_string::find_arg(args.string(), "tx_buf_size").ulong_value(0)
  pub tx_buf_size : A → ℕ
  pub ram_quota : A → ℕ
  -- the last element of the session's label
  pub label : A → List ℕ
  pub dispatch : Dispatcher → Dcap → Proc W Dcap
  pub factory : Factory.Calls W
  -- memory for a root, where there is some
  pub allocate_root : Proc W (Option ℕ)
  pub destroy_root : Option Root → Proc W (Unit {0})
  -- the root at an address, managed by the entrypoint of an environment
  pub announce : Option ℕ → ℕ → Proc W (Unit {0})
  pub warn : Warning → Proc W (Unit {0})

-- Root::Root
unfoldable pub construct_root : Option ℕ → Option ℕ → Option Root
construct_root env none = none
construct_root env (some address) = some (record { address = address; env = env })

-- Dispatcher::label_content, label_length and session_size
unfoldable pub label_content : Dcap → Option (List ℕ)
label_content dcap = dcap.label

-- strlen of the null pointer is undefined: `none`.
unfoldable pub label_length : Dcap → Option ℕ
label_length dcap = Option.map length dcap.label

unfoldable pub session_size : Dcap → ℕ
session_size dcap = dcap.size

-- Dispatcher::session_accept
unfoldable pub session_accept : Dcap → Server → Dcap
session_accept dcap server = record dcap { root = server.session }

-- What Root::close hands to the dispatcher.
unfoldable pub closing : ℕ → Dcap
closing close_cap = record { size = 0; label = none; root = none; cap = some close_cap }

-- The comparison in session_cleanup.
unfoldable pub same_cap : Option ℕ → ℕ → Bool
same_cap none cap = false
same_cap (some close_cap) cap = cap == close_cap

module _ {W A : Type 0} (k : Calls W A) (server_calls : Server.Calls W) where
  -- The end of Root::session.
  unfoldable pub conclude : Option ℕ → Proc W Outcome
  unfolding root_cap
  conclude none = do k.warn session_failed; pure service_denied
  conclude (some root) = do cap ← root_cap server_calls root; pure (granted cap)

  -- Root::session
  unfoldable pub session : Dispatcher → A → Proc W Outcome
  unfolding conclude
  session dispatcher args =
      let ds_size = k.tx_buf_size args in
      if leb (k.ram_quota args) ds_size
      then (do k.warn buffer_exceeds_quota; pure insufficient_ram_quota)
      else do
        dcap ←
            k.dispatch dispatcher
              (record { size = ds_size; label = some (k.label args); root = none; cap = none })
        conclude dcap.root

  -- Root::upgrade
  unfoldable pub upgrade : Proc W (Unit {0})
  upgrade = pure tt

  -- Root::close
  unfoldable pub close : Dispatcher → ℕ → Proc W (Unit {0})
  unfolding closing
  close dispatcher close_cap = do _ ← k.dispatch dispatcher (closing close_cap); pure tt

  -- Dispatcher::initialize
  unfoldable pub initialize : Option ℕ → Option ℕ → Proc W Dispatcher
  unfolding construct_root
  initialize env callback = do
    check_factory k.factory env
    memory ← k.allocate_root
    pure (record { root = construct_root env memory; handler = callback })

  -- Dispatcher::finalize
  unfoldable pub finalize : Dispatcher → Proc W Dispatcher
  finalize dispatcher = do
    k.destroy_root dispatcher.root
    pure (record { root = none; handler = none })

  -- Dispatcher::announce, of the member `_root`; a null root is undefined: `none`.
  unfoldable pub announce : Option Root → Proc W (Option (Unit {0}))
  announce none = pure none
  announce (some root) = do k.announce root.env root.address; pure (some tt)

  -- Dispatcher::get_capability, of the member `_root`; a null root is undefined: `none`.
  unfoldable pub get_capability : Option Root → Option (Option ℕ)
  get_capability none = none
  get_capability (some root) = some root.env

  -- What session_cleanup does with the member `_session` of the server.
  unfoldable pub cleanup_of : Dcap → Option ℕ → Proc W Bool
  unfolding same_cap root_cap
  cleanup_of dcap none = pure false
  cleanup_of dcap (some root) = do cap ← root_cap server_calls root; pure (same_cap dcap.cap cap)

  -- Dispatcher::session_cleanup
  unfoldable pub session_cleanup : Dcap → Server → Proc W Bool
  unfolding cleanup_of
  session_cleanup dcap server = cleanup_of dcap server.session
