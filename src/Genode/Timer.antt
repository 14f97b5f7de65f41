-- ===== src/Genode/Timer.antt =====
-- The timer client for Genode: src/timer/client/genode/timer_client.cc and timer_client.h.
pub mod Timeout
use ada_interfaces.Genode.Factory
use ada_interfaces.Genode.Factory.{check_factory}
use ada_interfaces.Base.{
  ℕ, ◌*◌, ◌/◌, ◌%◌, ◌^◌, Bool, true, false, Option, none, some, List, Proc, pure, ◌>>=◌, ◌>>◌, when,
}

-- `Timer_Session`: its connection and its one-shot timeout, and the addresses of its client and of
-- the function to call.
pub record Session : Type 0 where
  pub timer : ℕ
  pub timeout : ℕ
  pub client : ℕ
  pub callback : Option ℕ

-- Genode's heap, timer connections and timeouts.
pub record Calls (W : Type 0) : Type 0 where
  pub factory : Factory.Calls W
  -- memory for a session, a connection for an environment and a label, and a one-shot timeout at
  -- it; `none` where one of them throws
  pub create_members : Option ℕ → List ℕ → Proc W (Option (ℕ × ℕ))
  pub destroy_session : Option Session → Proc W (Unit {0})
  pub elapsed_us : ℕ → Proc W ℕ
  pub scheduled : ℕ → Proc W Bool
  pub discard : ℕ → Proc W (Unit {0})
  pub schedule : ℕ → ℕ → Proc W (Unit {0})
  pub call : Option ℕ → Proc W (Unit {0})

-- Timer_Session::Timer_Session
unfoldable pub construct_session : Option ℕ → ℕ → Option (ℕ × ℕ) → Option Session
construct_session callback client none = none
construct_session callback client (some (timer, timeout)) =
    some (record { timer = timer; timeout = timeout; client = client; callback = callback })

-- Timer_Session::timer
unfoldable pub session_timer : Session → ℕ
session_timer session = session.timer

module _ {W : Type 0} (k : Calls W) where
  -- Timer_Session::handle_event
  unfoldable pub handle_event : Session → Proc W (Unit {0})
  handle_event session = k.call session.callback

  -- Timer_Session::update_timeout
  unfoldable pub update_timeout : Session → ℕ → Proc W (Unit {0})
  update_timeout session d = do
    running ← k.scheduled session.timeout
    when running (k.discard session.timeout)
    k.schedule session.timeout d

  -- Client::initialized, of the member `_session`
  unfoldable pub initialized : Option Session → Bool
  initialized none = false
  initialized (some session) = true

  -- Client::initialize of the client at an address; the result is `_session`.
  unfoldable pub initialize : Option ℕ → Option ℕ → List ℕ → ℕ → Proc W (Option Session)
  unfolding construct_session
  initialize env callback label client = do
    check_factory k.factory env
    members ← k.create_members env label
    pure (construct_session callback client members)

  -- Client::clock, in 64 bits; a null `_session` is undefined: `none`.
  unfoldable pub clock : Option Session → Proc W (Option ℕ)
  unfolding session_timer
  clock none = pure none
  clock (some session) = do
    us ← k.elapsed_us (session_timer session)
    pure (some ((us * 1000) % 2 ^ 64))

  -- Client::set_timeout; `none` for a null `_session` too.
  unfoldable pub set_timeout : Option Session → ℕ → Proc W (Option (Unit {0}))
  unfolding update_timeout
  set_timeout none duration = pure none
  set_timeout (some session) duration = do update_timeout session (duration / 1000); pure (some tt)

  -- Client::finalize
  unfoldable pub finalize : Option Session → Proc W (Option Session)
  finalize session = do k.destroy_session session; pure none
