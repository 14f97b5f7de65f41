-- ===== src/Genode/Block/Server/Geometry.antt =====
-- The geometry of the device, as the request stream and as the client are told.
use ada_interfaces.Base.{ℕ, ◌≡◌, Option}
use ada_interfaces.Genode.Block.Server.{Calls, Server, stream_info, session_info}

-- The functions of the server answer with fixed values.
pub record AttributeLaws {W : Type 0} (k : Calls W) : Type 0 where
  pub value : Option ℕ → ℕ
  pub attribute_value :
      (f : Option ℕ) (server : Server) (w : W) → (k.get_attr_64 f server w).0 ≡ value f

module _ {W : Type 0} (k : Calls W) (t : AttributeLaws k) where
  -- The client is told the size and the number of blocks, the request stream the size twice: it
  -- takes the block size for the number of blocks, whatever function gives that number.
  pub stream_info-session_info :
      (server : Server) (w : W)
      → ((session_info k server w).0.block_size ≡ t.value server.block_size)
        × ((session_info k server w).0.block_count ≡ t.value server.block_count)
        × ((stream_info k server w).0.block_size ≡ t.value server.block_size)
        × ((stream_info k server w).0.block_count ≡ t.value server.block_size)
  unfolding stream_info session_info
  stream_info-session_info server w = (
    t.attribute_value server.block_size server w,
    t.attribute_value server.block_count server _,
    t.attribute_value server.block_size server w,
    t.attribute_value server.block_size server _,
  )
