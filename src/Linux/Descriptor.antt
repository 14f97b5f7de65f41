-- ===== src/Linux/Descriptor.antt =====
-- Descriptors and processes: gneiss_socketpair, gneiss_fork, gneiss_close, gneiss_waitpid,
-- gneiss_dup, gneiss_open and gneiss_timerfd_create of src/platform/linux/syscall.c.
-- An out parameter is a result; one that is also read is an argument.
pub mod Table
pub mod Close
use ada_interfaces.Base.{
  ℕ, ◌≡◌, Bool, true, false, Option, none, some, ℤ, minus_one, is_neg, is_nonzero, Proc, pure,
  ◌>>=◌, ◌>>◌, when, if◌then◌else◌,
}

-- The reports that these functions write to stderr.
pub data Warning : Type 0 where
  socketpair_failed fork_failed timerfd_create_failed : Warning
  close_failed waitpid_failed dup_failed : ℤ → Warning
  open_failed : ℕ → Bool → Warning

-- The flags of `open` that the sources use.
pub data Access : Type 0 where
  rdonly rdwr : Access

-- The C library and the kernel. A path is a number here: it is only handed on.
pub record Calls (W : Type 0) : Type 0 where
  -- result, fds[0], fds[1]
  pub socketpair : Proc W (ℤ × ℤ × ℤ)
  pub fork : Proc W ℤ
  pub close : ℤ → Proc W ℤ
  -- waitpid(pid, &status, WNOHANG): result and the new content of status
  pub waitpid : ℤ → ℤ → Proc W (ℤ × ℤ)
  pub wexitstatus : ℤ → ℤ
  pub dup : ℤ → Proc W ℤ
  pub openfile : ℕ → Access → Proc W ℤ
  pub timerfd_create : Proc W ℤ
  pub warn : Warning → Proc W (Unit {0})

module _ {W : Type 0} (k : Calls W) where
  open k use {wexitstatus}

  unfoldable pub gneiss_socketpair : Proc W (ℤ × ℤ)
  gneiss_socketpair = do
    r ← k.socketpair
    if is_neg r.0
        then (do k.warn socketpair_failed; pure (minus_one, minus_one))
        else pure (r.1, r.2)

  unfoldable pub gneiss_fork : Proc W ℤ
  gneiss_fork = do pid ← k.fork; when (is_neg pid) (k.warn fork_failed); pure pid

  -- The result is the new content of `*fd`.
  unfoldable pub gneiss_close : ℤ → Proc W ℤ
  gneiss_close fd =
      if is_neg fd
      then pure fd
      else do rc ← k.close fd; when (is_nonzero rc) (k.warn (close_failed fd)); pure minus_one

  -- `status` is the old content of `*status`, the result its new one.
  unfoldable pub gneiss_waitpid : ℤ → ℤ → Proc W ℤ
  gneiss_waitpid pid status = do
    r ← k.waitpid pid status
    when (is_neg r.0) (k.warn (waitpid_failed pid))
    pure (wexitstatus r.1)

  unfoldable pub gneiss_dup : ℤ → Proc W ℤ
  gneiss_dup oldfd = do
    newfd ← k.dup oldfd
    when (is_neg newfd) (k.warn (dup_failed oldfd))
    pure newfd

  unfoldable pub gneiss_open : ℕ → Bool → Proc W ℤ
  gneiss_open path writable = do
    fd ← k.openfile path (if writable then rdwr else rdonly)
    when (is_neg fd) (k.warn (open_failed path writable))
    pure fd

  unfoldable pub gneiss_timerfd_create : Proc W ℤ
  gneiss_timerfd_create = do
    fd ← k.timerfd_create
    when (is_neg fd) (k.warn timerfd_create_failed)
    pure fd
