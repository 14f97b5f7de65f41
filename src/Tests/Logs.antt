-- ===== src/Tests/Logs.antt =====
-- A Genode heap with room for one component, at address 9. Arguments are a quota, and every label
-- is a number whose prefix is empty.
use ada_interfaces.Base.{
  ℕ, ◌≡◌, ◌≢◌, refl, Bool, true, false, Option, none, some, List, [], ◌∷◌, ◌==◌, if◌then◌else◌,
  Proc, arith, store32, ◌^◌, ◌+◌,
}
use ada_interfaces.Genode.Root.{Warning, Rooted, Arguments, create_session}
use ada_interfaces.Genode.Root.Grant.{create_session-granted}
use ada_interfaces.Genode.Log.{
  State, Server, Calls, session_initialize, cleanup, accept, component_write,
}
use ada_interfaces.Genode.Log.Lifetime.{HeapLaws, cleanup-session_initialize}
use ada_interfaces.Genode.Log.Pool as Pool
use ada_interfaces.Genode.Log.Pool.{Run, opens, accepts, closes, IsSound, Run-IsSound}
use ada_interfaces.Genode.Log.Session.{component_write-session_initialize}

abbrev arguments : Arguments ℕ ℕ
arguments = record {
  ram_quota = λ a. a;
  label_from_args = λ a. a;
  prefix = λ l. 0;
  last_element = λ l. l;
  length = λ l. l;
  dummy = 0;
}

abbrev quiet : Warning → ℕ → Proc (Rooted ℕ) (Unit {0})
quiet r a s = (tt, s)

abbrev accept_seven : ℕ → ℕ → ℕ → Proc (Rooted ℕ) (Unit {0})
accept_seven cap name label s = (tt, record s { accepted = some 7 })

abbrev earlier : Rooted ℕ
earlier = record { rest = 0; accepted = some 3 }

create_session-granted_example : (accept_seven 0 0 5000 earlier).1.accepted ≡ some 7
unfolding create_session
create_session-granted_example =
    create_session-granted arguments quiet accept_seven
      (λ c. (accept_seven 0 0 5000 earlier).1.accepted ≡ some c) (λ cap name label s c h e. e) 100 0
      5000 earlier 7 refl

abbrev Table : Type 0
Table = ℕ → Bool

abbrev put : ℕ → Bool → Table → Table
put n b w m = if m == n then b else w m

abbrev create_at : Bool → Table → Option ℕ × Table
create_at true w = (none, w)
create_at false w = (some 9, put 9 true w)

abbrev destroy_at : Option ℕ → Table → Unit {0} × Table
destroy_at none w = (tt, w)
destroy_at (some a) w = (tt, put a false w)

abbrev kernel : Calls Table
kernel = record {
  sizeof_component = 64;
  construct_factory = λ env w. (tt, w);
  create_component = λ w. create_at (w 9) w;
  destroy_component = destroy_at;
  create_root = λ env w. (some 1, w);
  announce = λ env root w. (tt, w);
  create_connection = λ env label w. (some 2, w);
  destroy_connection = λ c w. (tt, w);
  send = λ c msg w. (tt, w);
}

create_cases :
    (b : Bool) (c : ℕ) (w : Table)
    → w 9 ≡ b
    → (create_at b w).0 ≡ some c
    → (w c ≡ false) × ((create_at b w).1 c ≡ true)
create_cases true c w e h = cc
create_cases false c w e h = ground arith

create_others :
    (b : Bool) (m : ℕ) (w : Table) → (create_at b w).0 ≢ some m → (create_at b w).1 m ≡ w m
create_others true m w h = refl
create_others false m w h = ground arith

abbrev laws : HeapLaws kernel
laws = record {
  live = λ n w. w n;
  create_fresh = λ c w h. create_cases (w 9) c w refl h;
  create_other = λ b w h. create_others (w 9) b w h;
  destroy_self = λ c w. ground arith;
  destroy_other = λ c b w h. ground arith;
  destroy_null = λ b w. refl;
  factory_live = λ env b w. refl;
}

abbrev empty_heap : Table
empty_heap n = false

abbrev blank : Server
blank = record { component = none; write = none }

abbrev start : State Table
start = record {
  rest = record {
    os = empty_heap;
    factory = false;
    dispatcher = record { root = some 1; env = some 5; dispatch = some 6 };
    servers = λ n. blank;
    owner = λ n. 0;
  };
  accepted = some 3;
}

cleanup-session_initialize_example :
    ((n : ℕ)
      → (cleanup kernel 4 (session_initialize kernel 4 (some 8) start).1).1.rest.servers n ≡ blank)
    × ((b : ℕ)
        → (cleanup kernel 4 (session_initialize kernel 4 (some 8) start).1).1.rest.os b ≡ false)
cleanup-session_initialize_example = cleanup-session_initialize kernel laws 4 8 start refl

-- A function that answers with the length of the text.
abbrev answer : Option ℕ → ℕ → List ℕ → ℕ → Proc (State Table) ℕ
answer f server text n s = (n, s)

abbrev opened : State Table
opened = (session_initialize kernel 4 (some 8) start).1

component_write-session_initialize_example :
    component_write kernel answer 9 (7 ∷ 7 ∷ 7 ∷ []) (2 ^ 40 + 5) opened
    ≡ (store32 (2 ^ 40 + 5) (some 3), opened)
unfolding session_initialize
component_write-session_initialize_example =
    component_write-session_initialize kernel laws answer 4 8 9 (7 ∷ 7 ∷ 7 ∷ []) (2 ^ 40 + 5) start
      refl

abbrev freed : State Table
freed = (cleanup kernel 4 (accept kernel 4 opened).1).1

-- Server 5 gets a component once server 4 has given up its own.
freed_blank : (freed.rest.servers 5).component ≡ none
unfolding session_initialize accept cleanup
freed_blank = refl

abbrev history : Run kernel start (session_initialize kernel 5 (some 8) freed).1
history = opens 5 8 (closes 4 (accepts 4 (opens 4 8 Pool.start refl))) freed_blank

Run-IsSound_example :
    IsSound kernel laws empty_heap (session_initialize kernel 5 (some 8) freed).1
    × (((n : ℕ) → ((session_initialize kernel 5 (some 8) freed).1.rest.servers n).component ≡ none)
        → (b : ℕ) → (session_initialize kernel 5 (some 8) freed).1.rest.os b ≡ false)
Run-IsSound_example = Run-IsSound kernel laws history (λ n. refl)
