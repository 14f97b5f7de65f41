-- ===== src/Tests/Timers.antt =====
-- A kernel with a timer on every descriptor and a clock.
use ada_interfaces.Base.{ℕ, ◌+◌, ◌*◌, ◌/◌, ◌%◌, ◌≡◌, refl, true, pos, arith, List, [], ◌∷◌, ◌++◌}
use ada_interfaces.Linux.Timer.{Calls, Timespec, gneiss_timer_set}
use ada_interfaces.Linux.Timer.Laws.{TimerLaws, ClockLaws, gneiss_timer_set-armed}

record World : Type 0 where
  left : ℕ
  clock : ℕ
  taken : List Timespec

abbrev kernel : Calls World
kernel = record {
  timerfd_settime = λ fd its w. (
    pos 0,
    record w {
      left = its.it_value.tv_sec * 1_000_000_000 + its.it_value.tv_nsec;
      taken = w.taken ++ its.it_value ∷ [];
    },
  );
  clock_gettime = λ ts w.
      ((pos 0, record { tv_sec = w.clock / 1_000_000_000; tv_nsec = w.clock % 1_000_000_000 }), w);
  read_expirations = λ fd w. (pos 8, w);
  warn = λ c w. (tt, w);
}

abbrev timer_laws : TimerLaws kernel
timer_laws = record {
  is_timer = λ fd w. true;
  armed = λ fd w. w.left;
  settings = λ fd w. w.taken;
  settime_timer = λ fd v w t h. (refl, refl, refl, refl);
}

abbrev clock_laws : ClockLaws kernel
clock_laws = record { now = λ w. w.clock; clock_now = λ ts w. refl }

abbrev start : World
start = record { left = 77; clock = 5_000_000_123; taken = [] }

gneiss_timer_set-armed_example :
    ((gneiss_timer_set kernel (pos 4) 2_500_000_000 start).1.left ≡ 2_500_000_000)
    × (true ≡ true)
    × ((gneiss_timer_set kernel (pos 4) 2_500_000_000 start).1.taken
        ≡ record { tv_sec = 0; tv_nsec = 0 } ∷ record { tv_sec = 2; tv_nsec = 500_000_000 } ∷ [])
gneiss_timer_set-armed_example =
    gneiss_timer_set-armed kernel timer_laws (pos 4) 2_500_000_000 start refl (omega arith)
