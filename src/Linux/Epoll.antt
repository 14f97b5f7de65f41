-- ===== src/Linux/Epoll.antt =====
-- Event notification: src/platform/linux/epoll.c. The two macros are functions over the union
-- `epoll_data`, and their instances for `int` and `void *` are the functions of the file.
pub mod Laws
pub mod Registry
use ada_interfaces.Base.{ℕ, ℤ, pos, is_neg, Proc, pure, ◌>>=◌, ◌>>◌, when, if◌then◌else◌}

-- The member of `epoll_data` that was stored last.
pub data Priv : Type 0 where
  of_fd : ℤ → Priv
  of_ptr : ℕ → Priv

pub data Warning : Type 0 where
  epoll_create1_failed : Warning
  ctl_add_failed ctl_del_failed : ℤ → ℤ → Warning

-- What epoll_wait(efd, &eev, 1, -1) left: its result and `eev`.
pub record Waited : Type 0 where
  pub result : ℤ
  pub events : ℕ
  pub priv : Priv

-- The kernel.
pub record Calls (W : Type 0) : Type 0 where
  pub epoll_create1 : Proc W ℤ
  -- EPOLL_CTL_ADD with the events and the private value
  pub epoll_ctl_add : ℤ → ℤ → ℕ → Priv → Proc W ℤ
  pub epoll_ctl_del : ℤ → ℤ → Proc W ℤ
  -- the second and third argument are the old content of `eev`
  pub epoll_wait : ℤ → ℕ → Priv → Proc W Waited
  -- the value of `EPOLLRDHUP | EPOLLIN`
  pub rdhup_in : ℕ
  pub warn : Warning → Proc W (Unit {0})

-- A wait returns the private value and the events. Its report of a failure passes `efd` where the
-- format `%s` reads a string: what happens then is undefined.
pub data Delivery : Type 0 where
  delivered : Priv → ℕ → Delivery
  undefined_behaviour : Delivery

module _ {W : Type 0} (k : Calls W) where
  unfoldable pub gneiss_epoll_create : Proc W ℤ
  gneiss_epoll_create = do
    efd ← k.epoll_create1
    when (is_neg efd) (k.warn epoll_create1_failed)
    pure efd

  -- The macro gneiss_epoll_add; the result is the new content of `*success`.
  unfoldable pub gneiss_epoll_add : ℤ → ℤ → Priv → Proc W ℤ
  gneiss_epoll_add efd fd priv = do
    success ← k.epoll_ctl_add efd fd k.rdhup_in priv
    when (is_neg success) (k.warn (ctl_add_failed efd fd))
    pure success

  unfoldable pub gneiss_epoll_add_fd : ℤ → ℤ → ℤ → Proc W ℤ
  gneiss_epoll_add_fd efd fd priv = gneiss_epoll_add efd fd (of_fd priv)

  unfoldable pub gneiss_epoll_add_ptr : ℤ → ℤ → ℕ → Proc W ℤ
  gneiss_epoll_add_ptr efd fd priv = gneiss_epoll_add efd fd (of_ptr priv)

  unfoldable pub gneiss_epoll_remove : ℤ → ℤ → Proc W ℤ
  gneiss_epoll_remove efd fd = do
    success ← k.epoll_ctl_del efd fd
    when (is_neg success) (k.warn (ctl_del_failed efd fd))
    pure success

  -- The macro gneiss_epoll_wait; `zero` is the content of `eev.data` before the call.
  unfoldable pub gneiss_epoll_wait : ℤ → Priv → Proc W Delivery
  gneiss_epoll_wait efd zero = do
    r ← k.epoll_wait efd 0 zero
    if is_neg r.result then pure undefined_behaviour else pure (delivered r.priv r.events)

  unfoldable pub gneiss_epoll_wait_fd : ℤ → Proc W Delivery
  gneiss_epoll_wait_fd efd = gneiss_epoll_wait efd (of_fd (pos 0))

  unfoldable pub gneiss_epoll_wait_ptr : ℤ → Proc W Delivery
  gneiss_epoll_wait_ptr efd = gneiss_epoll_wait efd (of_ptr 0)
