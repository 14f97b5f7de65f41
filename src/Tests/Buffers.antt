-- ===== src/Tests/Buffers.antt =====
-- Requests with 16 bytes of content at address 100, and a client's buffer with room for one packet
-- at offset 64.
use ada_interfaces.Tests.Factories.{ready_factory}
use ada_interfaces.Base.{
  arith, inl, inr, ℕ, ◌+◌, ◌≡◌, ◌≢◌, ◌<◌, ◌⊎◌, refl, Bool, true, false, Option, none, some, ℤ, pos,
  put_at, put_at-same, put_at-other, subst,
}
use ada_interfaces.Genode.Block.Server
use ada_interfaces.Genode.Block.Server.{
  Request, Server, Machine, blank, read, write, stream_info, session_info,
}
use ada_interfaces.Genode.Block.Server.Content.{ContentLaws, Outside, read-write}
use ada_interfaces.Genode.Block.Server.Geometry.{AttributeLaws}
use ada_interfaces.Genode.Block.Client
use ada_interfaces.Genode.Block.Client.{Client, Packet, describe, allocate_request, release}
use ada_interfaces.Genode.Block.Client.Packets.{PacketLaws, space, release-allocate_request}
use ada_interfaces.Tests.Streams.{World, server_calls, server, idle, old, packet}

-- A write request, which is successful in the tests, at 100, and a read request at 132.
abbrev content_of : Bool → Option (ℕ × ℕ)
content_of true = some (100, 16)
content_of false = some (132, 16)

abbrev with_content : Server.Calls World
with_content = record server_calls { with_content = λ p r w. (content_of r.success, w) }

abbrev content_laws : ContentLaws with_content
content_laws = record {
  content = λ p r w. content_of r.success;
  content_given = λ p r w. (refl, λ q. refl);
}

abbrev before : Machine World
before = record { os = idle; memory = λ a. a }

abbrev put : Request
put = record old { success = true }

abbrev get : Request
get = record old { success = false }

abbrev after : Machine World
after = (read with_content server get 200 2 8 (write with_content server put 200 4 8 before).1).1

read-write_example :
    ((i : ℕ) → i < 8 → after.memory (134 + i) ≡ 104 + i)
    × ((i : ℕ) → i < 16 → after.memory (100 + i) ≡ 100 + i)
    × ((i : ℕ) → i < 16 → Outside i 2 8 → after.memory (132 + i) ≡ 132 + i)
    × ((a : ℕ) → Outside a 200 8 → Outside a 134 8 → after.memory a ≡ a)
read-write_example =
    read-write with_content content_laws server put get 200 8 4 100 16 2 132 16 before refl refl
      (omega arith) (omega arith) (inr (omega arith)) (inr (omega arith)) (inl (omega arith))

abbrev value : Option ℕ → ℕ
value none = 0
value (some n) = n

abbrev with_geometry : Server.Calls World
with_geometry = record server_calls { get_attr_64 = λ f s w. (value f, w) }

abbrev attribute_laws : AttributeLaws with_geometry
attribute_laws = record { value = value; attribute_value = λ f s w. refl }

abbrev disk : Server
disk = record blank { block_count = some 2048; block_size = some 512 }

abbrev Table : Type 0
Table = ℕ → Bool

abbrev alloc_at : Bool → ℕ → Table → Option Packet × Table
alloc_at true n w = (none, w)
alloc_at false n w = (some (record (packet 0 false) { offset = 64; bytes = n }), put_at w 64 true)

abbrev calls : Client.Calls Table
calls = record {
  factory = ready_factory;
  connect = λ env n label w. (some 2, w);
  sigh_ack_avail = λ d w. (tt, w);
  sigh_ready_to_submit = λ d w. (tt, w);
  destroy_session = λ d w. (tt, w);
  avail = λ d w. (0, w);
  info = λ d w. (record { block_size = 512; block_count = 8; writeable = true }, w);
  alloc_packet = λ d n w. alloc_at (w 64) n w;
  ack_avail = λ d w. (false, w);
  get_acked_packet = λ d w. (packet 0 false, w);
  submit_packet = λ d x w. (tt, w);
  packet_content = λ d x w. (0, w);
  release_packet = λ d x w. (tt, put_at w x.offset false);
  call_rw = λ f client opcode tag count content w. (tt, w);
  call = λ f w. (tt, w);
}

some_path : (x p : Packet) → some x ≡ some p → x ≡ p
some_path x p h = cc

alloc_cases :
    (b : Bool) (n : ℕ) (p : Packet) (w : Table)
    → w 64 ≡ b
    → (alloc_at b n w).0 ≡ some p
    → (p.bytes ≡ n)
      × (w p.offset ≡ false)
      × ((alloc_at b n w).1 p.offset ≡ true)
      × ((o : ℕ) → o ≢ p.offset → (alloc_at b n w).1 o ≡ w o)
alloc_cases true n p w e h = cc
alloc_cases false n p w e h =
    subst
      (λ p.
        (p.bytes ≡ n)
        × (w p.offset ≡ false)
        × (put_at w 64 true p.offset ≡ true)
        × ((o : ℕ) → o ≢ p.offset → put_at w 64 true o ≡ w o))
      (some_path (record (packet 0 false) { offset = 64; bytes = n }) p h)
      (refl, e, put_at-same w 64 true, put_at-other w 64 true)

alloc_none :
    (b : Bool) (n o : ℕ) (w : Table) → (alloc_at b n w).0 ≡ none → (alloc_at b n w).1 o ≡ w o
alloc_none true n o w h = refl
alloc_none false n o w h = cc

abbrev packet_laws : PacketLaws calls
packet_laws = record {
  taken = λ d o w. w o;
  alloc_fresh = λ d n p w h. alloc_cases (w 64) n p w refl h;
  alloc_failed = λ d n o w h. alloc_none (w 64) n o w h;
  release_self = λ d p w. put_at-same w p.offset false;
  release_other = λ d p o w h. put_at-other w p.offset false o h;
}

abbrev client : Client
client = record Client.blank { device = some 2; block_size = 512 }

abbrev free : Table
free o = false

abbrev held : (Packet × ℤ) × Table
held = allocate_request calls client (packet 9 false) (pos 1) 40 8 9 free

release-allocate_request_example :
    ((held.0.1 ≡ pos 0)
      × (held.0.0.opcode ≡ pos 1)
      × (held.0.0.block_number ≡ 40)
      × (held.0.0.block_count ≡ 8)
      × (held.0.0.tag ≡ 9)
      × (held.0.0.success ≡ false)
      × (held.0.0.bytes ≡ space calls packet_laws client 8)
      × (false ≡ false)
      × (held.1 held.0.0.offset ≡ true)
      × ((o : ℕ) → (release calls client held.0.0 held.1).1 o ≡ false))
    ⊎ ((held.0 ≡ (packet 9 false, pos 1)) × ((o : ℕ) → held.1 o ≡ false))
unfolding Client.is_transfer
release-allocate_request_example =
    release-allocate_request calls packet_laws client (packet 9 false) (pos 1) 40 8 9 free refl
