-- ===== src/Tests/Blocks.antt =====
-- A kernel with a heap that hands out ever higher addresses, operations that transfer all bytes,
-- and a table of descriptors.
use ada_interfaces.Base.{
  ℕ, suc, ◌+◌, ◌*◌, ◌≤◌, ◌<◌, ◌≡◌, ◌≢◌, ◌⊎◌, refl, Bool, true, false, ◌&&◌, Option, none, some, [],
  ◌==◌, ltb, if◌then◌else◌, ℤ, pos, negsuc, minus_one, is_neg, arith,
}
use ada_interfaces.Linux.Block.{
  Calls, Client, Request, Machine, Aiocb, Opcode, lio_read, lio_write, regular, other_type,
  zero_request, cai_block_raw, cai_block_read, cai_block_write, block_client_allocate_request,
  block_client_release, block_client_finalize,
}
use ada_interfaces.Linux.Block.Device.{block_client_initialize}
use ada_interfaces.Linux.Block.Laws.{HeapLaws, DescriptorLaws}
use ada_interfaces.Linux.Block.Allocate.{Allocated, SameHeap, block_client_allocate_request-outcome}
use ada_interfaces.Linux.Block.Lifecycle.{
  IsSound, idle, held, Reach, here, next, allocates, releases,
}
use ada_interfaces.Linux.Block.Lifecycle.Sound.{
  Reach-IsSound, block_client_release-allocate_request,
}
use ada_interfaces.Linux.Block.Session.{
  initialized, block_client_initialize-regular, block_client_finalize-block_client_initialize,
}

record World : Type 0 where
  fresh : ℕ
  taken : ℕ → Bool
  sizes : ℕ → ℕ
  opened : ℕ → Bool

abbrev put : ℕ → Bool → (ℕ → Bool) → ℕ → Bool
put n b w m = if m == n then b else w m

abbrev put_size : ℕ → ℕ → (ℕ → ℕ) → ℕ → ℕ
put_size n b w m = if m == n then b else w m

abbrev release : Option ℕ → World → Unit {0} × World
release none w = (tt, w)
release (some a) w = (tt, record w { taken = put a false w.taken })

abbrev close_at : ℤ → World → ℤ × World
close_at (pos n) w = (pos 0, record w { opened = put n false w.opened })
close_at (negsuc n) w = (minus_one, w)

-- Path 0 is a file of 10000 bytes, any other path a directory.
abbrev kernel : Calls World
kernel = record {
  sizeof_aiocb = 168;
  einprogress = pos 115;
  malloc = λ n w. (
    some w.fresh,
    record w {
      fresh = suc w.fresh;
      taken = put w.fresh true w.taken;
      sizes = put_size w.fresh n w.sizes;
    },
  );
  free = release;
  openfile = λ path rdwr w. (pos path, record w { opened = put path true w.opened });
  fstat = λ fd w. (
    if is_neg fd
        then none
        else some (elim fd [
          | pos n ↦ if n == 0 then regular 10000 4096 else other_type
          | negsuc n ↦ other_type
        ]),
    w,
  );
  ioctl_sector_size = λ fd w. (some 512, w);
  ioctl_bytes = λ fd w. (some 5120, w);
  ioctl_read_only = λ fd w. (some 0, w);
  close = close_at;
  aio_cancel = λ fd p w. (pos 0, w);
  aio_read = λ a c w. (pos 0, w);
  aio_write = λ a c w. (pos 0, w);
  aio_error = λ a c w. (pos 0, w);
  aio_return = λ a c w. (pos c.aio_nbytes, w);
  call_rw = λ f c r b w. (tt, w);
  report = λ c w. (tt, w);
}

abbrev is_live : ℕ → World → Bool
is_live a w = ltb a w.fresh && w.taken a

abbrev heap_laws : HeapLaws kernel
heap_laws = record {
  live = is_live;
  size = λ a w. w.sizes a;
  malloc_size = λ n b w h. ground arith;
  malloc_fresh = λ n a w h. ground arith;
  malloc_other = λ n b w h. ground arith;
  free_self = λ a w. ground arith;
  free_other = λ a b w h. ground arith;
  free_null = λ b w. refl;
  cancel_live = λ fd p b w. refl;
  read_live = λ a c b w. refl;
  write_live = λ a c b w. refl;
  error_live = λ a c b w. refl;
  return_live = λ a c b w. refl;
  report_live = λ c b w. refl;
}

abbrev table_laws : DescriptorLaws kernel
table_laws = record {
  is_open = λ n w. w.opened n;
  close_self = λ n w. ground arith;
  close_other = λ n m w h. ground arith;
  cancel_open = λ fd p n w. refl;
}

abbrev blank : Aiocb
blank = record {
  aio_fildes = pos 0;
  aio_offset = 0;
  aio_nbytes = 0;
  aio_lio_opcode = lio_read;
  aio_buf = 0;
}

abbrev start : Machine World
start = record {
  os = record { fresh = 100; taken = λ n. n == 50; sizes = λ n. 0; opened = λ n. n == 3 };
  aiocbs = λ n. blank;
  buffers = λ n. [];
}

abbrev client : Client
client = record {
  event = some 1;
  rw_callback = some 2;
  fd = pos 3;
  writable = true;
  block_size = 4;
  block_count = 2500;
  tag = 1;
}

abbrev request : Request
request = record zero_request { kind = 1; start = 5; length = 2 }

abbrev raw : Request
raw = record request { status = cai_block_raw }

-- The request and the process after the allocation.
abbrev ready : Request
ready = (block_client_allocate_request kernel client request start).0.0

abbrev busy : Machine World
busy = (block_client_allocate_request kernel client request start).1

block_client_allocate_request-outcome_example :
    ((opcode : Opcode) × (a : ℕ) × (b : ℕ) × (((request.kind ≡ cai_block_read)
          × (opcode ≡ lio_read))
        ⊎ ((request.kind ≡ cai_block_write) × (opcode ≡ lio_write)))
      × Allocated kernel heap_laws client raw opcode start
          (block_client_allocate_request kernel client request start).0
          busy
          a
          b)
    ⊎ (((request.kind ≡ cai_block_read) ⊎ (request.kind ≡ cai_block_write))
        × ((block_client_allocate_request kernel client request start).0 ≡ (raw, 2))
        × SameHeap kernel heap_laws start busy)
    ⊎ ((request.kind ≢ cai_block_read)
        × (request.kind ≢ cai_block_write)
        × (block_client_allocate_request kernel client request start ≡ ((raw, 0), start)))
block_client_allocate_request-outcome_example =
    block_client_allocate_request-outcome kernel heap_laws client request start

request-IsSound : IsSound kernel heap_laws request start
request-IsSound = idle refl refl

request_used :
    Reach kernel heap_laws client request start
      (block_client_release kernel client ready busy).0
      (block_client_release kernel client ready busy).1
request_used = next (next here (allocates refl)) releases

Reach-IsSound_example :
    IsSound kernel heap_laws
      (block_client_release kernel client ready busy).0
      (block_client_release kernel client ready busy).1
Reach-IsSound_example = Reach-IsSound kernel heap_laws request-IsSound request_used

ready-IsSound : IsSound kernel heap_laws ready busy
unfolding block_client_allocate_request
ready-IsSound = held 100 refl refl refl (omega arith) (omega arith)

block_client_release-allocate_request_example :
    ((block_client_release kernel client ready busy).0 ≡ zero_request)
    × SameHeap kernel heap_laws start (block_client_release kernel client ready busy).1
unfolding block_client_allocate_request
block_client_release-allocate_request_example =
    block_client_release-allocate_request kernel heap_laws client request ready start busy refl refl
      refl (λ c. refl)

block_client_initialize-regular_example :
    (c : Client) × ((block_client_initialize kernel client 0 (some 1) (some 2) 0 0 start).0
      ≡ some c)
    × (c.block_size ≡ 4096)
    × (c.block_count * c.block_size ≤ 10000)
    × (10000 < c.block_count * c.block_size + c.block_size)
    × (c.writable ≡ true)
    × (initialized c ≡ true)
block_client_initialize-regular_example =
    block_client_initialize-regular kernel client 0 1 2 0 0 start 0 10000 4096 refl refl
      (omega arith)

abbrev unsupported : Option Client × Machine World
unsupported = block_client_initialize kernel client 8 (some 1) (some 2) 0 0 start

block_client_finalize-block_client_initialize_example :
    (c : Client) × (unsupported.0 ≡ some c)
    × (c.fd ≡ pos 8)
    × (initialized c ≡ true)
    × (unsupported.1.os.opened 8 ≡ false)
    × ((v : Machine World)
        → let f = block_client_finalize kernel c v in
          (f.1.os.opened 8 ≡ false)
          × ((m : ℕ) → m ≢ 8 → f.1.os.opened m ≡ v.os.opened m)
          × (initialized f.0 ≡ true)
          × (f.0.fd ≡ pos 8))
block_client_finalize-block_client_initialize_example =
    block_client_finalize-block_client_initialize kernel table_laws client 8 1 2 0 0 start 8 refl
      refl
