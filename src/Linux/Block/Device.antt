-- ===== src/Linux/Block/Device.antt =====
-- How a block client learns the geometry of its device: block_client_initialize of
-- src/block/client/linux/block_client.c.
use mathlib.Core.Option
use ada_interfaces.Base.{
  ℕ, ◌/◌, ◌==◌, not, true, false, Option, none, some, if◌then◌else◌, is_neg, store32, Proc, pure,
  ◌>>=◌, ◌>>◌,
}
use ada_interfaces.Linux.Block.{
  Client, Stat, regular, device, other_type, Calls, Machine, lift, block_client_finalize,
  stat_failed, unsupported_type, path_failed,
}

-- An ioctl that fails leaves the variable as it was.
abbrev pub stored : ℕ → Option ℕ → ℕ
stored old none = old
stored old (some v) = v

module _ {W : Type 0} (k : Calls W) where
  -- A block device: `bytes` and `ro` are what the two local variables held. `none` is a division
  -- by zero.
  unfoldable pub device_geometry : Client → ℕ → ℕ → Proc (Machine W) (Option Client)
  device_geometry client bytes ro = do
    size ← lift (k.ioctl_sector_size client.fd)
    total ← lift (k.ioctl_bytes client.fd)
    read_only ← lift (k.ioctl_read_only client.fd)
    let block_size = store32 client.block_size size
    if block_size == 0
        then pure none
        else pure (
            some (record client {
              block_size = block_size;
              block_count = stored bytes total / block_size;
              writable = stored ro read_only == 0;
            }))

  unfoldable pub geometry : Client → ℕ → ℕ → Option Stat → Proc (Machine W) (Option Client)
  unfolding device_geometry
  geometry client bytes ro none = do
    lift (k.report stat_failed)
    c ← block_client_finalize k client
    pure (some c)
  geometry client bytes ro (some (regular size blksize)) =
      if blksize == 0
      then pure none
      else pure (some (record client { block_size = blksize; block_count = size / blksize }))
  geometry client bytes ro (some device) = device_geometry client bytes ro
  geometry client bytes ro (some other_type) = do
    lift (k.report unsupported_type)
    c ← block_client_finalize k client
    pure (some c)

  unfoldable pub opened : Client → Option ℕ → Option ℕ → ℕ → ℕ → Proc (Machine W) (Option Client)
  unfolding geometry
  opened client event rw_callback bytes ro = do
    st ← lift (k.fstat client.fd)
    c ← geometry client bytes ro st
    pure (Option.map (λ (c : Client). record c { event = event; rw_callback = rw_callback }) c)

  unfoldable pub block_client_initialize :
      Client → ℕ → Option ℕ → Option ℕ → ℕ → ℕ → Proc (Machine W) (Option Client)
  unfolding opened
  block_client_initialize client path event rw_callback bytes ro = do
    rdwr ← lift (k.openfile path true)
    fd ← if is_neg rdwr then lift (k.openfile path false) else pure rdwr
    let c = record client { fd = fd; writable = not (is_neg rdwr) }
    if is_neg fd
        then (do lift (k.report path_failed); c ← block_client_finalize k c; pure (some c))
        else opened c event rw_callback bytes ro
