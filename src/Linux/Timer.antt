-- ===== src/Linux/Timer.antt =====
-- The timer client: src/timer/client/linux/gneiss_timer_client.c.
pub mod Laws
use ada_interfaces.Base.{ℕ, ◌+◌, ◌-◌, ◌*◌, ◌/◌, ◌%◌, ◌^◌, ℤ, is_neg, Proc, pure, ◌>>=◌, ◌>>◌, when}

pub data Warning : Type 0 where
  settime_failed : ℤ → ℕ → Warning
  gettime_failed read_failed : ℤ → Warning

-- struct timespec. The time of a monotonic clock is not negative.
pub record Timespec : Type 0 where
  pub tv_sec : ℕ
  pub tv_nsec : ℕ

abbrev pub zero_time : Timespec
zero_time = record { tv_sec = 0; tv_nsec = 0 }

-- struct itimerspec
pub record Itimerspec : Type 0 where
  pub it_interval : Timespec
  pub it_value : Timespec

-- The kernel.
pub record Calls (W : Type 0) : Type 0 where
  -- timerfd_settime(fd, 0, &its, 0)
  pub timerfd_settime : ℤ → Itimerspec → Proc W ℤ
  -- clock_gettime(CLOCK_MONOTONIC, &ts): result and the new content of ts
  pub clock_gettime : Timespec → Proc W (ℤ × Timespec)
  -- read(fd, &u, 8)
  pub read_expirations : ℤ → Proc W ℤ
  pub warn : Warning → Proc W (Unit {0})

abbrev pub nano : ℕ
nano = 1_000_000_000

-- The value that gneiss_timer_set programs; unsigned long long arithmetic on 64 bits.
unfoldable pub split : ℕ → Timespec
split duration =
    let tv_sec = duration / nano in
    record { tv_sec = tv_sec; tv_nsec = (duration + 2 ^ 64 - tv_sec * nano) % 2 ^ 64 }

module _ {W : Type 0} (k : Calls W) where
  unfoldable pub gneiss_timer_set : ℤ → ℕ → Proc W (Unit {0})
  unfolding split
  gneiss_timer_set fd duration = do
    disarmed ← k.timerfd_settime fd (record { it_interval = zero_time; it_value = zero_time })
    when (is_neg disarmed) (k.warn (settime_failed fd duration))
    armed ← k.timerfd_settime fd (record { it_interval = zero_time; it_value = split duration })
    when (is_neg armed) (k.warn (settime_failed fd duration))

  -- The sum is converted to the 64 bits of the result.
  unfoldable pub gneiss_timer_get : ℤ → Proc W ℕ
  gneiss_timer_get fd = do
    r ← k.clock_gettime zero_time
    when (is_neg r.0) (k.warn (gettime_failed fd))
    pure ((r.1.tv_sec * nano + r.1.tv_nsec) % 2 ^ 64)

  unfoldable pub gneiss_timer_read : ℤ → Proc W (Unit {0})
  gneiss_timer_read fd = do rc ← k.read_expirations fd; when (is_neg rc) (k.warn (read_failed fd))
