-- ===== src/Tests/Memories.antt =====
-- A Genode heap that makes every component at address 9, attached at 4096.
use ada_interfaces.Base.{◌≡◌, ◌⊎◌, ℕ, Option, none, some, List, [], ◌∷◌, ℤ, pos, false}
use ada_interfaces.Genode.Memory.{
  State, Calls, Dataspace, Capability, session_initialize, server_finalize, component_dataspace,
}
use ada_interfaces.Genode.Memory.Attach.{offered, session_initialize_lifetime}

-- The components that were destroyed.
abbrev pub World : Type 0
World = List (Option ℕ)

abbrev space : ℤ → Dataspace
space n = record { local_addr = 4096; size = n; cap = 33 }

abbrev pub kernel : Calls World
kernel = record {
  sizeof_component = 64;
  construct_factory = λ env w. (tt, w);
  create_component = λ n w. (some (9, space n), w);
  destroy_component = λ c w. (tt, c ∷ w);
  create_root = λ env w. (some 1, w);
  announce = λ env root w. (tt, w);
}

abbrev pub start : State World
start = record {
  rest = record {
    os = [];
    factory = false;
    dispatcher = record { root = some 1; env = some 5; dispatch = some 6 };
    servers = λ n. record { component = none; addr = none; size = pos 0 };
    dataspaces = λ n. space (pos 0);
  };
  accepted = none;
}

abbrev request : Capability
request = record { session = none; size = pos 8192 }

abbrev served : State World
served = (session_initialize kernel request 4 start).1

abbrev ended : State World
ended = (server_finalize kernel 4 served).1

session_initialize_lifetime_example :
    ((c : ℕ) × (ds : Dataspace) × (offered kernel request start ≡ some (c, ds))
      × (served.rest.servers 4
          ≡ record { component = some c; addr = some ds.local_addr; size = ds.size })
      × ((component_dataspace kernel c served).0 ≡ ds.cap)
      × (ended.rest.os ≡ some c ∷ served.rest.os)
      × ((ended.rest.servers 4).component ≡ none)
      × ((ended.rest.servers 4).addr ≡ none))
    ⊎ ((offered kernel request start ≡ none)
        × (served.rest.servers 4 ≡ record (start.rest.servers 4) { component = none })
        × (ended.rest.os ≡ none ∷ served.rest.os))
session_initialize_lifetime_example = session_initialize_lifetime kernel request 4 start
