-- ===== src/Tests/Letters.antt =====
-- A Genode heap that makes every component at address 9, and a log of the signals submitted.
use ada_interfaces.Base.{
  ℕ, ◌≡◌, refl, Bool, false, Option, none, some, List, [], ◌∷◌, ◌==◌, if◌then◌else◌, arith,
}
use ada_interfaces.Genode.Message.{
  State, Callbacks, Calls, new_component, check_factory, server_initialize, server_component,
  server_finalize,
}
use ada_interfaces.Genode.Message.Signals.{server_finalize-stale}

-- Which components exist, and the signals.
abbrev pub World : Type 0
World = (ℕ → Bool) × List ℕ

abbrev put : ℕ → Bool → (ℕ → Bool) → ℕ → Bool
put n b w m = if m == n then b else w m

abbrev destroy_at : Option ℕ → World → Unit {0} × World
destroy_at none w = (tt, w)
destroy_at (some a) w = (tt, (put a false w.0, w.1))

abbrev pub kernel : Calls World
kernel = record {
  sizeof_component = 64;
  construct_factory = λ env w. (tt, w);
  create_component = λ w. (some 9, (put 9 Bool.true w.0, w.1));
  destroy_component = destroy_at;
  create_root = λ env w. (some 1, w);
  announce = λ env root w. (tt, w);
  submit = λ sig w. (tt, (w.0, sig ∷ w.1));
}

abbrev pub callbacks : Callbacks
callbacks = record { avail = some 21; receive = some 22; get = some 23 }

abbrev pub start : State World
start = record {
  rest = record {
    os = (λ n. false, []);
    factory = false;
    dispatcher = record { root = some 1; dispatch = some 6; env = some 5 };
    servers = λ n. none;
    components = λ n. new_component 0 callbacks;
  };
  accepted = none;
}

abbrev served : State World
served = (server_initialize kernel 4 (some 5) callbacks start).1

server_finalize-stale_example :
    ((server_component kernel 4 (server_finalize kernel 4 served).1).0 ≡ some 9)
    × ((server_finalize kernel 4 served).1.rest.os.0 9 ≡ false)
unfolding check_factory
server_finalize-stale_example =
    server_finalize-stale kernel (λ c w. w.0 c) (λ c w. ground arith) 4 9 (some 5) callbacks start
      refl
