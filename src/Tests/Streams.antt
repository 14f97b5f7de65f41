-- ===== src/Tests/Streams.antt =====
-- A packet stream as three lists, with a client and a server at its ends.
use ada_interfaces.Tests.Factories.{ready_factory}
use ada_interfaces.Base.{
  take, ℕ, ◌-◌, ◌%◌, ◌≡◌, refl, Bool, true, false, none, some, List, [], ◌∷◌, ◌++◌, map, length, ℤ,
  pos, arith,
}
use ada_interfaces.Genode.Block.Server
use ada_interfaces.Genode.Block.Server.{Server, Request, Response, Taken, blank}
use ada_interfaces.Genode.Block.Server.Stream.{StreamLaws, feed, fill}
use ada_interfaces.Genode.Block.Server.Serving.{serve_all, serve_all-acked, answered}
use ada_interfaces.Genode.Block.Client
use ada_interfaces.Genode.Block.Client.{Client, Packet}
use ada_interfaces.Genode.Block.Exchange.{
  WireLaws, enqueue_all, collect, collect-serve_all-enqueue_all,
}

pub record World : Type 0 where
  pub pending : List Request
  pub slots : ℕ
  pub acked : List Request

abbrev pub server_calls : Server.Calls World
server_calls = record {
  factory = ready_factory;
  get_attr_64 = λ f server w. (512, w);
  get_writable = λ f server w. (true, w);
  call = λ f w. (tt, w);
  sizeof_root = 256;
  create_members = λ root n w. (true, w);
  destroy_members = λ root w. (tt, w);
  start_stream = λ root info w. (true, w);
  manage = λ root w. (tt, w);
  dissolve = λ root w. (tt, w);
  tx_cap = λ root w. (7, w);
  session_cap = λ root w. (8, w);
  with_requests = λ p f t w. let r = feed f w.pending t in (r.0, record w { pending = r.1 });
  try_acknowledge = λ p f s w.
      let r = fill f w.slots s in
      (r.1, record w { slots = w.slots - length r.0; acked = w.acked ++ r.0 });
  with_content = λ p r w. (none, w);
  call_rw = λ f server id ptr size w. (tt, w);
  wakeup_client_if_needed = λ p w. (tt, w);
}

abbrev stream_laws : StreamLaws server_calls
stream_laws = record {
  pending = λ p w. w.pending;
  slots = λ p w. w.slots;
  acked = λ p w. w.acked;
  requests_fed = λ p f t w. (refl, refl, refl, refl);
  slots_filled = λ p f s w. (refl, refl, refl, refl);
}

abbrev pub request_of : Packet → Request
request_of x = record {
  kind = 1;
  block_number = x.block_number;
  block_count = x.block_count;
  success = false;
  offset = x.offset;
  tag = x.tag;
}

abbrev pub packet : ℕ → Bool → Packet
packet tag success = record {
  offset = 0;
  bytes = 512;
  opcode = pos 0;
  tag = tag;
  block_number = 0;
  block_count = 1;
  success = success;
}

abbrev is_empty : List Request → Bool
is_empty [] = false
is_empty (r ∷ rs) = true

abbrev pop : List Request → World → Packet × World
pop [] w = (packet 0 false, w)
pop (r ∷ rs) w = (packet r.tag r.success, record w { acked = rs })

abbrev client_calls : Client.Calls World
client_calls = record {
  factory = ready_factory;
  connect = λ env n label w. (some 2, w);
  sigh_ack_avail = λ d w. (tt, w);
  sigh_ready_to_submit = λ d w. (tt, w);
  destroy_session = λ d w. (tt, w);
  avail = λ d w. (0, w);
  info = λ d w. (record { block_size = 512; block_count = 8; writeable = true }, w);
  alloc_packet = λ d n w. (none, w);
  ack_avail = λ d w. (is_empty w.acked, w);
  get_acked_packet = λ d w. pop w.acked w;
  submit_packet = λ d x w. (tt, record w { pending = w.pending ++ (request_of x ∷ []) });
  packet_content = λ d x w. (0, w);
  release_packet = λ d x w. (tt, w);
  call_rw = λ f client opcode tag count content w. (tt, w);
  call = λ f w. (tt, w);
}

pop_lem :
    (r : Request) (rs : List Request) (w : World)
    → w.acked ≡ r ∷ rs
    → ((pop w.acked w).0.tag ≡ r.tag)
      × ((pop w.acked w).0.success ≡ r.success)
      × ((pop w.acked w).1.acked ≡ rs)
pop_lem r rs w e = rw e (refl, refl, refl)

nonempty :
    (r : Request) (rs : List Request) (w : World) → w.acked ≡ r ∷ rs → is_empty w.acked ≡ true
nonempty r rs w e = rw e refl

abbrev wire : WireLaws client_calls server_calls stream_laws 2 1
wire = record {
  request_of = request_of;
  tag_of = λ r. r.tag;
  tag_kept = λ x b. refl;
  submitted = λ x w. (refl, refl, refl);
  some_acked = λ r rs w e. (nonempty r rs w e, e);
  received = λ r rs w e. pop_lem r rs w e;
}

abbrev client : Client
client = record Client.blank { device = some 2 }

abbrev pub server : Server
server = record blank { session = some 1 }

-- Transfers with an odd tag succeed.
abbrev handler : Request → ℤ
handler r = pos (r.tag % 2)

abbrev pub idle : World
idle = record { pending = []; slots = 4; acked = [] }

abbrev packets : List Packet
packets = packet 6 false ∷ packet 3 false ∷ packet 5 false ∷ []

abbrev pub old : Request
old = request_of (packet 0 false)

abbrev waiting : World
waiting = record idle { pending = map request_of packets }

serve_all-acked_example :
    ((serve_all server_calls server handler 3 old waiting).1.pending ≡ [])
    × ((serve_all server_calls server handler 3 old waiting).1.acked
        ≡ map (answered handler) (take waiting.slots waiting.pending))
serve_all-acked_example =
    serve_all-acked server_calls stream_laws server 1 refl handler 3 old waiting (omega arith)

abbrev sent : World
sent = (enqueue_all client_calls client packets idle).1

abbrev done : World
done = (serve_all server_calls server handler 3 old sent).1

collect-serve_all-enqueue_all_example :
    ((collect client_calls client 3 done).0 ≡ (6, pos 0) ∷ (3, pos 1) ∷ (5, pos 1) ∷ [])
    × (done.pending ≡ [])
    × ((collect client_calls client 3 done).1.acked ≡ [])
collect-serve_all-enqueue_all_example =
    collect-serve_all-enqueue_all client_calls server_calls stream_laws 2 1 wire client server refl
      refl handler old packets idle refl refl (omega arith)
