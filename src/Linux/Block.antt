-- ===== src/Linux/Block.antt =====
-- The block client: src/block/client/linux/block_client.c and block_client.h beside it.
pub mod Laws
pub mod Allocate
pub mod Device
pub mod Session
pub mod Lifecycle
use mathlib.Core.Option
use ada_interfaces.Base.{
  ◌||◌, ℕ, zero, suc, ◌+◌, ◌-◌, ◌*◌, ◌/◌, ◌%◌, ◌^◌, Bool, true, false, not, Option, none, some,
  List, replicate, ◌==◌, if◌then◌else◌, ℤ, pos, is_neg, is_nonzero, to_size, int_eq, store32, Proc,
  pure, ◌>>=◌, ◌>>◌, when,
}

abbrev pub cai_block_none : ℕ
cai_block_none = 0

abbrev pub cai_block_read : ℕ
cai_block_read = 1

abbrev pub cai_block_write : ℕ
cai_block_write = 2

abbrev pub cai_block_raw : ℕ
cai_block_raw = 0

abbrev pub cai_block_allocated : ℕ
cai_block_allocated = 1

abbrev pub cai_block_pending : ℕ
cai_block_pending = 2

abbrev pub cai_block_ok : ℕ
cai_block_ok = 3

abbrev pub cai_block_error : ℕ
cai_block_error = 4

-- `request_t`; a pointer is an address or `none` for null.
pub record Request : Type 0 where
  pub kind : ℕ
  pub tag : ℕ
  pub start : ℕ
  pub length : ℕ
  pub status : ℕ
  pub aio_cb : Option ℕ
  pub session : ℕ

-- memset(request, 0, sizeof(request_t))
abbrev pub zero_request : Request
zero_request = record {
  kind = 0;
  tag = 0;
  start = 0;
  length = 0;
  status = 0;
  aio_cb = none;
  session = 0;
}

-- `block_client_t`; `event` and `rw` are addresses of functions.
pub record Client : Type 0 where
  pub event : Option ℕ
  pub rw_callback : Option ℕ
  pub fd : ℤ
  pub writable : Bool
  pub block_size : ℕ
  pub block_count : ℕ
  pub tag : ℕ

pub data Opcode : Type 0 where
  lio_read lio_write : Opcode

-- The fields of `struct aiocb` that the source sets; sigev_notify is SIGEV_SIGNAL and sigev_signo
-- SIGIO.
pub record Aiocb : Type 0 where
  pub aio_fildes : ℤ
  pub aio_offset : ℕ
  pub aio_nbytes : ℕ
  pub aio_lio_opcode : Opcode
  pub aio_buf : ℕ

-- fstat: st_size and st_blksize of a regular file, a block device, or any other type.
pub data Stat : Type 0 where
  regular : ℕ → ℕ → Stat
  device other_type : Stat

pub data Report : Type 0 where
  aio_failed stat_failed unsupported_type path_failed : Report

-- The C library and the kernel. `open` takes the path and whether O_RDWR; both come with
-- O_NOFOLLOW. An ioctl that fails stores nothing.
pub record Calls (W : Type 0) : Type 0 where
  pub sizeof_aiocb : ℕ
  pub einprogress : ℤ
  pub malloc : ℕ → Proc W (Option ℕ)
  pub free : Option ℕ → Proc W (Unit {0})
  pub openfile : ℕ → Bool → Proc W ℤ
  -- `none` where fstat fails
  pub fstat : ℤ → Proc W (Option Stat)
  pub ioctl_sector_size : ℤ → Proc W (Option ℕ)
  pub ioctl_bytes : ℤ → Proc W (Option ℕ)
  pub ioctl_read_only : ℤ → Proc W (Option ℕ)
  pub close : ℤ → Proc W ℤ
  pub aio_cancel : ℤ → Option ℕ → Proc W ℤ
  pub aio_read : ℕ → Aiocb → Proc W ℤ
  pub aio_write : ℕ → Aiocb → Proc W ℤ
  pub aio_error : ℕ → Aiocb → Proc W ℤ
  pub aio_return : ℕ → Aiocb → Proc W ℤ
  -- the function at an address, called with the client, the request and the buffer
  pub call_rw : Option ℕ → Client → Request → ℕ → Proc W (Unit {0})
  pub report : Report → Proc W (Unit {0})

-- The process: the world of the calls, and what its allocated blocks hold.
pub record Machine (W : Type 0) : Type 0 where
  pub os : W
  pub aiocbs : ℕ → Aiocb
  pub buffers : ℕ → List ℕ

abbrev pub write_at : {A : Type 0} → (ℕ → A) → ℕ → A → ℕ → A
write_at f p v a = if a == p then v else f a

abbrev pub lift : {W A : Type 0} → Proc W A → Proc (Machine W) A
lift m s = ((m s.os).0, record s { os = (m s.os).1 })

-- 64-bit product.
abbrev pub mul64 : ℕ → ℕ → ℕ
mul64 a b = (a * b) % 2 ^ 64

module _ {W : Type 0} (k : Calls W) where
  -- `*retry` is the second result.
  unfoldable pub fill_request :
      Client → Request → Opcode → Option ℕ → Option ℕ → Proc (Machine W) (Request × ℕ)
  fill_request client request opcode (some a) (some b) s =
      let n = mul64 request.length client.block_size in
      let aiocb : Aiocb = record {
        aio_fildes = client.fd;
        aio_offset = mul64 request.start client.block_size;
        aio_nbytes = n;
        aio_lio_opcode = opcode;
        aio_buf = b;
      } in
      (
        (record request { aio_cb = some a; status = cai_block_allocated }, 0),
        record s {
          aiocbs = write_at s.aiocbs a aiocb;
          buffers = write_at s.buffers b (replicate n 0);
        },
      )
  fill_request client request opcode aiocb buffer s =
      (do lift (k.free aiocb); lift (k.free buffer); pure (request, 2)) s

  unfoldable pub allocate : Client → Request → Opcode → Proc (Machine W) (Request × ℕ)
  unfolding fill_request
  allocate client request opcode = do
    aiocb ← lift (k.malloc k.sizeof_aiocb)
    buffer ← lift (k.malloc (mul64 request.length client.block_size))
    fill_request client request opcode aiocb buffer

  unfoldable pub block_client_allocate_request : Client → Request → Proc (Machine W) (Request × ℕ)
  unfolding allocate
  block_client_allocate_request client request =
      let raw = record request { status = cai_block_raw } in
      if request.kind == cai_block_read
      then allocate client raw lio_read
      else if request.kind == cai_block_write
      then allocate client raw lio_write
      else pure (raw, 0)

  -- `none` is the access through a null `aio_cb`, here and below.
  unfoldable pub update : Request → ℕ → Proc (Machine W) (Option Request)
  update request a s =
      (do
        e ← lift (k.aio_error a (s.aiocbs a))
        if int_eq e k.einprogress then pure (some request) else (do
          n ← lift (k.aio_return a (s.aiocbs a))
          pure (
              some (record request {
                status =
                    if to_size n == (s.aiocbs a).aio_nbytes then cai_block_ok else cai_block_error;
              }))))
        s

  unfoldable pub block_client_update_request : Client → Request → Proc (Machine W) (Option Request)
  unfolding update
  block_client_update_request client request = elim request.aio_cb [
    | none ↦ pure none
    | some a ↦ update request a
  ]

  unfoldable pub block_client_finalize : Client → Proc (Machine W) Client
  block_client_finalize client = do
    _ ← lift (k.aio_cancel client.fd none)
    _ ← lift (k.close client.fd)
    pure client

  unfoldable pub enqueue_result : Request → ℤ → Proc (Machine W) Request
  enqueue_result request status =
      if is_nonzero status
      then (do when (is_neg status) (lift (k.report aio_failed)); pure request)
      else pure (record request { status = cai_block_pending })

  unfoldable pub enqueue : Request → ℕ → Proc (Machine W) Request
  unfolding enqueue_result
  enqueue request a s =
      (do
        status ←
            if request.kind == cai_block_write
            then lift (k.aio_write a (s.aiocbs a))
            else if request.kind == cai_block_read
            then lift (k.aio_read a (s.aiocbs a))
            else pure (pos 1)
        enqueue_result request status)
        s

  unfoldable pub block_client_enqueue : Client → Request → Proc (Machine W) (Option Request)
  unfolding enqueue
  block_client_enqueue client request = elim request.aio_cb [
    | none ↦
        if request.kind == cai_block_write || request.kind == cai_block_read
        then pure none
        else pure (some request)
    | some a ↦ do r ← enqueue request a; pure (some r)
  ]

  unfoldable pub block_client_submit : Client → Proc (Machine W) (Unit {0})
  block_client_submit client = pure tt

  unfoldable pub block_client_read_write : Client → Request → Proc (Machine W) (Option (Unit {0}))
  block_client_read_write client request s = elim request.aio_cb [
    | none ↦ (none, s)
    | some a ↦
        (do
          _ ← lift (k.call_rw client.rw_callback client request (s.aiocbs a).aio_buf)
          pure (some tt))
          s
  ]

  unfoldable pub block_client_release : Client → Request → Proc (Machine W) Request
  block_client_release client request s = elim request.aio_cb [
    | none ↦ (do lift (k.free none); pure zero_request) s
    | some a ↦
        (do
          _ ← lift (k.aio_cancel client.fd (some a))
          lift (k.free (some (s.aiocbs a).aio_buf))
          lift (k.free (some a))
          pure zero_request)
          s
  ]

  unfoldable pub block_client_writable : Client → Bool
  block_client_writable client = client.writable

  unfoldable pub block_client_block_count : Client → ℕ
  block_client_block_count client = client.block_count

  unfoldable pub block_client_block_size : Client → ℕ
  block_client_block_size client = client.block_size
