-- ===== src/Genode/Timer/Timeout.antt =====
-- The one-shot timeout of a timer client.
use ada_interfaces.Base.{
  ℕ, ◌+◌, ◌*◌, ◌/◌, ◌≡◌, ◌≢◌, ◌≤◌, ◌<◌, Bool, true, false, Option, none, some, ap, ◌∙◌, arith,
  Option-cases, inl, inr,
}
use ada_interfaces.Genode.Timer.{Session, Calls, update_timeout, set_timeout}

abbrev pub is_some : Option ℕ → Bool
is_some none = false
is_some (some n) = true

-- `due t w` is the time in microseconds until timeout `t` fires, if it is scheduled. A timeout that
-- is not scheduled may be scheduled, which leaves the others alone.
pub record TimeoutLaws {W : Type 0} (k : Calls W) : Type 0 where
  pub due : ℕ → W → Option ℕ
  pub scheduled_due :
      (t u : ℕ) (w : W)
      → ((k.scheduled t w).0 ≡ is_some (due t w)) × (due u (k.scheduled t w).1 ≡ due u w)
  pub discard_due : (t : ℕ) (w : W) → due t (k.discard t w).1 ≡ none
  pub discard_other : (t u : ℕ) (w : W) → u ≢ t → due u (k.discard t w).1 ≡ due u w
  pub schedule_due : (t us : ℕ) (w : W) → due t w ≡ none → due t (k.schedule t us w).1 ≡ some us
  pub schedule_other : (t us u : ℕ) (w : W) → u ≢ t → due u (k.schedule t us w).1 ≡ due u w

module _ {W : Type 0} (k : Calls W) (t : TimeoutLaws k) where
  -- Whether a timeout is scheduled or not, set_timeout leaves exactly one for the session, which
  -- fires after the whole microseconds of the duration. These are at most the duration, and less
  -- than a microsecond short of it: a timeout fires early by the part of a microsecond that the
  -- division drops, although the interface guarantees at least the duration. The timeouts of other
  -- sessions stay.
  pub set_timeout-due :
      (session : Session) (duration : ℕ) (w : W)
      → let v = (set_timeout k (some session) duration w).1 in
        ((us : ℕ) × (t.due session.timeout v ≡ some us)
          × (us * 1000 ≤ duration)
          × (duration < us * 1000 + 1000))
        × ((u : ℕ) → u ≢ session.timeout → t.due u v ≡ t.due u w)
  unfolding set_timeout update_timeout
  set_timeout-due session duration w =
      let o = session.timeout in
      let us = duration / 1000 in
      elim (Option-cases (t.due o w)) [
        | inl e ↦ rw ((t.scheduled_due o o w).0 ∙ ap is_some e) (
          (us, t.schedule_due o us _ ((t.scheduled_due o o w).1 ∙ e), omega arith, omega arith),
          λ u ne. t.schedule_other o us u _ ne ∙ (t.scheduled_due o u w).1,
        )
        | inr (n, e) ↦ rw ((t.scheduled_due o o w).0 ∙ ap is_some e) (
          (us, t.schedule_due o us _ (t.discard_due o _), omega arith, omega arith),
          λ u ne.
              t.schedule_other o us u _ ne ∙ t.discard_other o u _ ne ∙ (t.scheduled_due o u w).1,
        )
      ]
