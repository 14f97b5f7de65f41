-- ===== src/Linux/Timer/Laws.antt =====
-- gneiss_timer_set and gneiss_timer_get against timerfd_settime(2) and clock_gettime(2).
use mathlib.Core.List.{append_assoc}
use ada_interfaces.Base.{
  ◌%◌, ◌/◌, ap, ◌∙◌, ℕ, ◌+◌, ◌*◌, ◌<◌, ◌^◌, ◌≡◌, Bool, true, ℤ, pos, arith, List, [], ◌∷◌, ◌++◌,
}
use ada_interfaces.Linux.Timer.{
  gneiss_timer_get, Calls, Timespec, zero_time, nano, split, gneiss_timer_set,
}

-- `armed fd w` is the time left until the one-shot timer fires in nanoseconds, 0 for a disarmed
-- timer; `settings fd w` are the values that the kernel has taken for the timer, oldest first. A
-- value with less than a second in tv_nsec is taken on a timer descriptor, and replaces what was
-- programmed.
pub record TimerLaws {W : Type 0} (k : Calls W) : Type 0 where
  pub is_timer : ℤ → W → Bool
  pub armed : ℤ → W → ℕ
  pub settings : ℤ → W → List Timespec
  pub settime_timer :
      (fd : ℤ) (v : Timespec) (w : W)
      → is_timer fd w ≡ true
      → v.tv_nsec < 1_000_000_000
      → let r = k.timerfd_settime fd (record { it_interval = zero_time; it_value = v }) w in
        (r.0 ≡ pos 0)
        × (is_timer fd r.1 ≡ true)
        × (armed fd r.1 ≡ v.tv_sec * 1_000_000_000 + v.tv_nsec)
        × (settings fd r.1 ≡ settings fd w ++ v ∷ [])

-- The value that is programmed is a valid timespec, and stands for the duration.
pub split_lem :
    (duration : ℕ)
    → duration < 2 ^ 64
    → ((split duration).tv_nsec < nano)
      × ((split duration).tv_sec * nano + (split duration).tv_nsec ≡ duration)
unfolding split
split_lem d h = (omega arith, omega arith)

-- Its parts are the quotient and the remainder.
split-remainder :
    (duration : ℕ)
    → duration < 2 ^ 64
    → split duration
      ≡ record { tv_sec = duration / 1_000_000_000; tv_nsec = duration % 1_000_000_000 }
unfolding split
split-remainder d h =
    let same : (split d).tv_nsec ≡ d % 1_000_000_000 = omega arith in
    ap (λ (n : ℕ). record { tv_sec = d / 1_000_000_000; tv_nsec = n }) same

module _ {W : Type 0} (k : Calls W) (t : TimerLaws k) where
  -- On a timer descriptor gneiss_timer_set makes two settings, and the kernel takes both: the first
  -- disarms the timer, the second is the duration in seconds and nanoseconds. The time left is then
  -- exactly the duration, whatever was programmed before. A duration has 64 bits.
  pub gneiss_timer_set-armed :
      (fd : ℤ) (duration : ℕ) (w : W)
      → t.is_timer fd w ≡ true
      → duration < 2 ^ 64
      → (t.armed fd (gneiss_timer_set k fd duration w).1 ≡ duration)
        × (t.is_timer fd (gneiss_timer_set k fd duration w).1 ≡ true)
        × (t.settings fd (gneiss_timer_set k fd duration w).1
            ≡ t.settings fd w
              ++ record { tv_sec = 0; tv_nsec = 0 }
                ∷ record { tv_sec = duration / 1_000_000_000; tv_nsec = duration % 1_000_000_000 }
                ∷ [])
  unfolding gneiss_timer_set
  gneiss_timer_set-armed fd d w timer small =
      let first = t.settime_timer fd zero_time w timer (omega arith) in
      let second = t.settime_timer fd (split d) _ first.1 (split_lem d small).0 in
      rw (first.0, second.0)
        (
          second.2 ∙ (split_lem d small).1,
          second.1,
          second.3
              ∙ ap (λ q. q ++ split d ∷ []) first.3
              ∙ append_assoc (t.settings fd w) (zero_time ∷ []) (split d ∷ [])
              ∙ ap (λ v. t.settings fd w ++ zero_time ∷ v ∷ []) (split-remainder d small),
        )

-- `now w` is the monotonic clock in nanoseconds.
pub record ClockLaws {W : Type 0} (k : Calls W) : Type 0 where
  pub now : W → ℕ
  pub clock_now :
      (ts : Timespec) (w : W)
      → (k.clock_gettime ts w).0
        ≡ (pos 0, record { tv_sec = now w / 1_000_000_000; tv_nsec = now w % 1_000_000_000 })

module _ {W : Type 0} (k : Calls W) (t : ClockLaws k) where
  -- gneiss_timer_get returns the clock in nanoseconds, as long as that fits the 64 signed bits in
  -- which the sum is made, and reports nothing.
  pub gneiss_timer_get-now :
      (fd : ℤ) (w : W)
      → t.now w < 2 ^ 63
      → gneiss_timer_get k fd w ≡ (t.now w, (k.clock_gettime zero_time w).1)
  unfolding gneiss_timer_get
  gneiss_timer_get-now fd w h =
      rw (t.clock_now zero_time w) (ap (λ n. (n, (k.clock_gettime zero_time w).1)) (omega arith))
