-- ===== src/Linux/Epoll/Laws.antt =====
-- What the sources rely on of epoll_ctl(2) and epoll_wait(2).
use ada_interfaces.Base.{◌≡◌, ◌≢◌, true, false, Option, none, some, ℤ, is_neg}
use ada_interfaces.Linux.Epoll.{Calls, Warning, Priv}

-- `interest efd fd w` is the private value under which `fd` is registered. A call that fails
-- changes nothing; a wait that does not fail delivers a registered value.
pub record InterestLaws {W : Type 0} (k : Calls W) : Type 0 where
  pub interest : ℤ → ℤ → W → Option Priv
  pub add_done :
      (efd fd : ℤ) (priv : Priv) (w : W)
      → let r = k.epoll_ctl_add efd fd k.rdhup_in priv w in
        is_neg r.0 ≡ false → interest efd fd r.1 ≡ some priv
  pub add_other :
      (efd fd : ℤ) (priv : Priv) (g : ℤ) (w : W)
      → g ≢ fd
      → interest efd g (k.epoll_ctl_add efd fd k.rdhup_in priv w).1 ≡ interest efd g w
  pub add_failed :
      (efd fd : ℤ) (priv : Priv) (g : ℤ) (w : W)
      → is_neg (k.epoll_ctl_add efd fd k.rdhup_in priv w).0 ≡ true
      → interest efd g (k.epoll_ctl_add efd fd k.rdhup_in priv w).1 ≡ interest efd g w
  pub del_done :
      (efd fd : ℤ) (w : W)
      → is_neg (k.epoll_ctl_del efd fd w).0 ≡ false
      → interest efd fd (k.epoll_ctl_del efd fd w).1 ≡ none
  pub del_other :
      (efd fd g : ℤ) (w : W)
      → g ≢ fd
      → interest efd g (k.epoll_ctl_del efd fd w).1 ≡ interest efd g w
  pub del_failed :
      (efd fd g : ℤ) (w : W)
      → is_neg (k.epoll_ctl_del efd fd w).0 ≡ true
      → interest efd g (k.epoll_ctl_del efd fd w).1 ≡ interest efd g w
  pub wait_registered :
      (efd : ℤ) (zero : Priv) (w : W)
      → is_neg (k.epoll_wait efd 0 zero w).0.result ≡ false
      → (fd : ℤ) × (interest efd fd w ≡ some (k.epoll_wait efd 0 zero w).0.priv)
  pub warn_same :
      (c : Warning) (efd fd : ℤ) (w : W) → interest efd fd (k.warn c w).1 ≡ interest efd fd w
