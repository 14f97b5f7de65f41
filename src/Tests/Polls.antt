-- ===== src/Tests/Polls.antt =====
-- A kernel with one interest list as a function; a wait sees descriptor 3.
use mathlib.Core.Logic.{ite, if_pos, if_neg}
use ada_interfaces.Base.{
  ℕ, ◌≡◌, ◌⊎◌, refl, true, false, Option, none, some, List, [], ◌∷◌, ℤ, pos, minus_one, is_neg,
  ℤ-discrete,
}
use ada_interfaces.Linux.Epoll.{
  Calls, Priv, of_fd, Waited, undefined_behaviour, delivered, gneiss_epoll_wait,
}
use ada_interfaces.Linux.Epoll.Laws.{InterestLaws}
use ada_interfaces.Linux.Epoll.Registry.{
  Request, register, unregister, serve, serve-Agrees, gneiss_epoll_wait-outcome,
}

abbrev World : Type 0
World = ℤ → Option Priv

abbrev put : ℤ → Option Priv → World → World
put fd p w g = ite (ℤ-discrete g fd) p (w g)

abbrev ready : Option Priv → Priv → Waited
ready none zero = record { result = minus_one; events = 0; priv = zero }
ready (some p) zero = record { result = pos 1; events = 1; priv = p }

abbrev kernel : Calls World
kernel = record {
  epoll_create1 = λ w. (pos 7, w);
  epoll_ctl_add = λ efd fd events priv w. (pos 0, put fd (some priv) w);
  epoll_ctl_del = λ efd fd w. (pos 0, put fd none w);
  epoll_wait = λ efd events zero w. (ready (w (pos 3)) zero, w);
  rdhup_in = 0x2001;
  warn = λ c w. (tt, w);
}

ready-some :
    (o : Option Priv) (zero : Priv)
    → is_neg (ready o zero).result ≡ false
    → o ≡ some (ready o zero).priv
ready-some none zero h = cc
ready-some (some p) zero h = refl

abbrev laws : InterestLaws kernel
laws = record {
  interest = λ efd fd w. w fd;
  add_done = λ efd fd priv w h. if_pos _ refl (some priv) (w fd);
  add_other = λ efd fd priv g w h. if_neg _ h (some priv) (w g);
  add_failed = λ efd fd priv g w h. cc;
  del_done = λ efd fd w h. if_pos _ refl none (w fd);
  del_other = λ efd fd g w h. if_neg _ h none (w g);
  del_failed = λ efd fd g w h. cc;
  wait_registered = λ efd zero w h. (pos 3, ready-some (w (pos 3)) zero h);
  warn_same = λ c efd fd w. refl;
}

abbrev nothing : World
nothing fd = none

abbrev requests : List Request
requests =
    register (pos 3) (of_fd (pos 30)) ∷ register (pos 4) (of_fd (pos 40)) ∷ unregister (pos 4) ∷ []

serve-Agrees_example :
    (serve kernel (pos 7) nothing requests nothing).0 (pos 4)
    ≡ (serve kernel (pos 7) nothing requests nothing).1 (pos 4)
serve-Agrees_example =
    serve-Agrees kernel laws (pos 7) nothing requests nothing (λ fd. refl) (pos 4)

abbrev settled : World
settled = (serve kernel (pos 7) nothing requests nothing).1

gneiss_epoll_wait-outcome_example :
    ((is_neg (kernel.epoll_wait (pos 7) 0 (of_fd (pos 0)) settled).0.result ≡ true)
      × ((gneiss_epoll_wait kernel (pos 7) (of_fd (pos 0)) settled).0 ≡ undefined_behaviour))
    ⊎ ((is_neg (kernel.epoll_wait (pos 7) 0 (of_fd (pos 0)) settled).0.result ≡ false)
        × ((fd : ℤ) × (priv : Priv) × (events : ℕ) × ((gneiss_epoll_wait kernel
                (pos 7)
                (of_fd (pos 0))
                settled).0
              ≡ delivered priv events)
            × ((serve kernel (pos 7) nothing requests nothing).0 fd ≡ some priv)))
gneiss_epoll_wait-outcome_example =
    gneiss_epoll_wait-outcome kernel laws (pos 7) nothing requests (of_fd (pos 0)) nothing
      (λ fd. refl)
