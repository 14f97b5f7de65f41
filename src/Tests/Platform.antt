-- ===== src/Tests/Platform.antt =====
-- The broker of Tests/Brokers on Linux, with the sockets of Tests/Pairs.
use ada_interfaces.Base.{ℕ, ◌≡◌, ◌≢◌, ◌⊎◌, refl, Option, none, List, [], ◌∷◌, pos, minus_one, arith}
use ada_interfaces.Linux.Descriptor as Descriptor
use ada_interfaces.Linux.Memfile as Memfile
use ada_interfaces.Linux.Epoll as Epoll
use ada_interfaces.Linux.Packet.Format.{log, rom}
use ada_interfaces.Linux.Broker.State.{State}
use ada_interfaces.Linux.Broker.Handlers.{process_request}
use ada_interfaces.Linux.Broker.Platform.{platform}
use ada_interfaces.Linux.Broker.Platform.Quiet.{QuietLaws}
use ada_interfaces.Linux.Broker.Platform.Packets.{Ends, process_request-send}
use ada_interfaces.Tests.Pairs.{Queues, pair_kernel}
use ada_interfaces.Tests.Packets.{generated}
use ada_interfaces.Tests.Requests.{silent, stack}
use ada_interfaces.Tests.Brokers.{config, config_laws, broker, component_at}

-- Descriptors 20 and 21 are the ends of a new pair.
abbrev descriptors : Descriptor.Calls Queues
descriptors = record {
  socketpair = λ w. ((pos 0, pos 20, pos 21), w);
  fork = λ w. (pos 2, w);
  close = λ fd w. (pos 0, w);
  waitpid = λ pid status w. ((pid, status), w);
  wexitstatus = λ status. status;
  dup = λ fd w. (fd, w);
  openfile = λ path a w. (minus_one, w);
  timerfd_create = λ w. (pos 22, w);
  warn = λ r w. (tt, w);
}

abbrev files : Memfile.Calls Queues
files = record {
  add_seals = λ fd s w. (pos 0, w);
  fstat = λ fd w. ((pos 0, 0), w);
  mmap = λ size writable fd w. (none, w);
  munmap = λ a size w. (pos 0, w);
  memfd_create = λ name w. (pos 23, w);
  ftruncate = λ fd size w. (pos 0, w);
  close = λ fd w. (pos 0, w);
  warn = λ r w. (tt, w);
}

abbrev events : Epoll.Calls Queues
events = record {
  epoll_create1 = λ w. (pos 3, w);
  epoll_ctl_add = λ efd fd ev p w. (pos 0, w);
  epoll_ctl_del = λ efd fd w. (pos 0, w);
  epoll_wait = λ efd n p w. (record { result = minus_one; events = 0; priv = p }, w);
  rdhup_in = 0;
  warn = λ r w. (tt, w);
}

abbrev quiet : QuietLaws descriptors files events (λ w. w)
quiet = record {
  socketpair_quiet = λ w. refl;
  close_quiet = λ fd w. refl;
  open_quiet = λ path a w. refl;
  timer_quiet = λ w. refl;
  report_quiet = λ r w. refl;
  seals_quiet = λ fd s w. refl;
  seal_report_quiet = λ r w. refl;
  add_quiet = λ efd fd ev p w. refl;
  add_report_quiet = λ r w. refl;
}

abbrev place_of : List ℕ → ℕ
place_of path = 0

abbrev served : Option (State ℕ) × Queues
served =
    process_request (platform descriptors files events generated pair_kernel place_of stack) config
      2 broker 0 log (104 ∷ []) [] silent

process_request-send_example :
    (served.0 ≢ none)
    × (Ends descriptors files events generated pair_kernel place_of stack
          (λ w. w)
          quiet
          (pos 5)
          log
          (97 ∷ [])
          (104 ∷ [])
          silent
          served.1
        ⊎ ((log ≡ rom) × (served.1 ≡ silent)))
process_request-send_example =
    process_request-send descriptors files events generated pair_kernel place_of stack (λ w. w)
      quiet config config_laws 2 broker 0 log (104 ∷ []) [] silent (component_at (pos 5) 1) refl
      refl (omega arith) (omega arith) (omega arith)
