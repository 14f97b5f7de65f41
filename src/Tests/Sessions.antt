-- ===== src/Tests/Sessions.antt =====
-- A message client and a memory client on the services of Letters and Memories, a client of a
-- block dispatcher, and a timer with one timeout.
use ada_interfaces.Tests.Factories.{ready_factory}
use ada_interfaces.Base.{
  ℤ, take, ℕ, ◌+◌, ◌*◌, ◌≡◌, ◌≤◌, ◌<◌, ◌⊎◌, refl, Bool, true, false, Option, none, some, List, [],
  ◌∷◌, Proc, pos, arith, replicate, put_at, put_at-same, put_at-other, ◌≢◌,
}
use ada_interfaces.Genode.Root.{
  Arguments, Warning, Created, granted, service_denied, dispatch_label,
}
use ada_interfaces.Genode.Factory
use ada_interfaces.Genode.Message
use ada_interfaces.Genode.Message.{
  component_sigh, component_write, component_read, component_avail, server_initialize, send_signal,
}
use ada_interfaces.Genode.Message.Client
use ada_interfaces.Genode.Message.Client.Rpc.{Functions, RpcLaws, initialize-server_initialize}
use ada_interfaces.Genode.Memory
use ada_interfaces.Genode.Memory.{Capability, session_initialize, accept, create_memory_session}
use ada_interfaces.Genode.Memory.Client as MemoryClient
use ada_interfaces.Genode.Memory.Client.{SessionArgs}
use ada_interfaces.Genode.Memory.Client.Quota.{create_memory_session-session_args}
use ada_interfaces.Genode.Block.Server
use ada_interfaces.Genode.Block.Dispatcher
use ada_interfaces.Genode.Block.Dispatcher.{
  Dispatcher, session_accept, session, closing, session_cleanup,
}
use ada_interfaces.Genode.Block.Dispatcher.Cleanup.{CapLaws, session_cleanup-session}
use ada_interfaces.Genode.Timer
use ada_interfaces.Genode.Timer.{set_timeout}
use ada_interfaces.Genode.Timer.Timeout.{TimeoutLaws, is_some, set_timeout-due}
use ada_interfaces.Tests.Letters
use ada_interfaces.Tests.Memories
use ada_interfaces.Tests.Streams.{World, server_calls, server, idle}

-- The timeouts that are scheduled.
abbrev Timeouts : Type 0
Timeouts = ℕ → Option ℕ

abbrev one_timeout : Timer.Calls Timeouts
one_timeout = record {
  factory = ready_factory;
  create_members = λ env label w. (some (1, 2), w);
  destroy_session = λ s w. (tt, w);
  elapsed_us = λ t w. (0, w);
  scheduled = λ t w. (is_some (w t), w);
  discard = λ t w. (tt, put_at w t none);
  schedule = λ t us w. (tt, put_at w t (some us));
  call = λ f w. (tt, w);
}

abbrev timeout_laws : TimeoutLaws one_timeout
timeout_laws = record {
  due = λ t w. w t;
  scheduled_due = λ t u w. (refl, refl);
  discard_due = λ t w. put_at-same w t none;
  discard_other = λ t u w h. put_at-other w t none u h;
  schedule_due = λ t us w h. put_at-same w t (some us);
  schedule_other = λ t us u w h. put_at-other w t (some us) u h;
}

abbrev timer : Timer.Session
timer = record { timer = 1; timeout = 2; client = 6; callback = some 3 }

abbrev ticking : Timeouts
ticking t = some 40

set_timeout-due_example :
    ((us : ℕ) × ((set_timeout one_timeout (some timer) 2500 ticking).1 2 ≡ some us)
      × (us * 1000 ≤ 2500)
      × (2500 < us * 1000 + 1000))
    × ((u : ℕ) → u ≢ 2 → (set_timeout one_timeout (some timer) 2500 ticking).1 u ≡ some 40)
set_timeout-due_example = set_timeout-due one_timeout timeout_laws timer 2500 ticking

abbrev with_caps : Server.Calls World
with_caps = record server_calls { session_cap = λ root w. (root + 7, w) }

abbrev cap_laws : CapLaws with_caps
cap_laws = record { cap_of = λ root. root + 7; session_cap = λ root w. refl }

-- The arguments are the size of the buffer.
abbrev accepting : Dispatcher.Calls World ℕ
accepting = record {
  tx_buf_size = λ args. args;
  ram_quota = λ args. 8192;
  label = λ args. 98 ∷ 0 ∷ [];
  dispatch = λ d dcap w. (session_accept dcap server, w);
  factory = ready_factory;
  allocate_root = λ w. (some 5, w);
  destroy_root = λ root w. (tt, w);
  announce = λ env root w. (tt, w);
  warn = λ r w. (tt, w);
}

abbrev dispatcher : Dispatcher
dispatcher = record { root = some (record { address = 5; env = some 4 }); handler = some 6 }

session_cleanup-session_example :
    ((session accepting with_caps dispatcher 4096 idle).0 ≡ Dispatcher.granted 8)
    × ((v : World) → (session_cleanup accepting with_caps (closing 8) server v).0 ≡ true)
    × ((other : Server.Server) (v : World)
        → (session_cleanup accepting with_caps (closing 8) other v).0 ≡ true
        → (r : ℕ) × (other.session ≡ some r) × (r + 7 ≡ 8))
session_cleanup-session_example =
    session_cleanup-session accepting with_caps cap_laws dispatcher 4096 server 1 idle refl
      (omega arith) (λ dcap v. refl)

abbrev write_to : Option ℕ → List ℕ → Proc (Message.State Letters.World) (Unit {0})
write_to none buf s = (tt, s)
write_to (some c) buf s = component_write Letters.kernel (λ f server buf s. (tt, s)) c buf s

abbrev get : Option ℕ → ℕ → List ℕ → Proc (Message.State Letters.World) (List ℕ)
get f owner buf s = (5 ∷ buf, s)

abbrev read_from : Option ℕ → Proc (Message.State Letters.World) (List ℕ)
read_from none s = ([], s)
read_from (some c) s = component_read Letters.kernel get c s

abbrev avail_at : Option ℕ → Proc (Message.State Letters.World) Bool
avail_at none s = (false, s)
avail_at (some c) s = component_avail Letters.kernel (λ f server s. (pos 3, s)) c s

abbrev rpc : Message.Client.Calls (Message.State Letters.World)
rpc = record {
  factory = ready_factory;
  open_session = λ env args s. (some 9, s);
  create_handler = λ env b s. (77, s);
  destroy_connection = λ c s. (tt, s);
  rpc_sigh = component_sigh Letters.kernel;
  rpc_write = write_to;
  rpc_read = read_from;
  rpc_avail = avail_at;
  call = λ f s. (tt, s);
}

abbrev functions : Functions Letters.World
functions = record {
  avail = λ f server s. (pos 3, s);
  receive = λ f server buf s. (tt, s);
  get = get;
}

abbrev rpc_laws : RpcLaws rpc Letters.kernel functions
rpc_laws = record {
  sigh = λ c sig s. refl;
  sent = λ c buf s. refl;
  read = λ c s. refl;
  avail = λ c s. refl;
}

abbrev connected : Message.Client.Client × Message.State Letters.World
connected =
    Message.Client.initialize rpc (some 3) (97 ∷ 0 ∷ [])
      (record { connection = none; event = some 11 })
      (server_initialize Letters.kernel 4 (some 5) Letters.callbacks Letters.start).1

initialize-server_initialize_example :
    ((send_signal Letters.kernel 4 connected.1).1.rest.os
      ≡ (Letters.kernel.submit 77
          (server_initialize Letters.kernel 4
            (some 5)
            Letters.callbacks
            Letters.start).1.rest.os).1)
    × ((buf : List ℕ) → Message.Client.write rpc connected.0 buf connected.1 ≡ (tt, connected.1))
    × ((Message.Client.read rpc connected.0 connected.1).0 ≡ 5 ∷ replicate 128 0)
    × ((Message.Client.avail rpc connected.0 connected.1).0 ≡ pos 1)
unfolding server_initialize Factory.check_factory
initialize-server_initialize_example =
    initialize-server_initialize rpc Letters.kernel functions rpc_laws 4 9 77 (some 3) (some 5)
      Letters.callbacks (97 ∷ 0 ∷ []) (record { connection = none; event = some 11 }) Letters.start
      refl refl refl refl

-- The text of the arguments: the label as far as 3 characters, then the quota and the size.
abbrev Text : Type 0
Text = List ℕ × (ℕ × ℤ)

abbrev print : SessionArgs → Text
print a = (take 3 a.label, (a.ram_quota, a.memory_size))

abbrev find_size : Text → ℤ
find_size a = a.1.1

abbrev arguments : Arguments Text (List ℕ)
arguments = record {
  ram_quota = λ a. a.1.0;
  label_from_args = λ a. a.0;
  prefix = λ l. l;
  last_element = λ l. l;
  length = λ l. 2;
  dummy = [];
}

abbrev grant : Capability → List ℕ → List ℕ → Proc (Memory.State Memories.World) (Unit {0})
grant cap name label s = accept Memories.kernel 4 (session_initialize Memories.kernel cap 4 s).1

abbrev asked : Memory.State Memories.World
asked =
    (dispatch_label arguments (λ (r : Warning) (b : Text). Memory.lift (λ w. (tt, w))) grant
      (record { session = none; size = pos 20000 }) (98 ∷ [])
      (record Memories.start { accepted = none })).1

abbrev answer : Created × Memory.State Memories.World
answer =
    create_memory_session Memories.kernel arguments find_size (λ r b w. (tt, w)) grant
      (print (MemoryClient.session_args (98 ∷ []) 20000)) Memories.start

create_memory_session-session_args_example :
    ((c : ℕ) × (asked.accepted ≡ some c) × (answer ≡ (granted c, asked)))
    ⊎ ((asked.accepted ≡ none) × (answer.0 ≡ service_denied))
unfolding MemoryClient.session_args
create_memory_session-session_args_example =
    create_memory_session-session_args Memories.kernel arguments print find_size (λ r b w. (tt, w))
      grant (98 ∷ []) 20000 Memories.start refl refl (omega arith) (omega arith)
