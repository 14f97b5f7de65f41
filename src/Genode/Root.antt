-- ===== src/Genode/Root.antt =====
-- The root components of the log, message and memory services: _create_session and
-- _destroy_session of gneiss_log_dispatcher.cc, gneiss_message_dispatcher.cc and
-- gneiss_memory_dispatcher.cc in src/log/server/genode and its siblings, which differ in the
-- capability that they hand to the dispatcher only. The functions here are generic in it.
pub mod Grant
use ada_interfaces.Base.{
  ℕ, Bool, Option, none, some, ltb, max, if◌then◌else◌, Proc, pure, ◌>>=◌, ◌>>◌,
}

-- The two reports of a refused session.
pub data Warning : Type 0 where
  insufficient_quota denied : Warning

-- The value that _create_session returns, or the exception that it throws.
pub data Created : Type 0 where
  granted : ℕ → Created
  insufficient_ram_quota service_denied : Created

-- The member `_accepted` of the root, and everything else that its dispatcher can change.
pub record Rooted (S : Type 0) : Type 0 where
  pub rest : S
  pub accepted : Option ℕ

-- Genode's parsing of session arguments `A` and of labels `L`.
pub record Arguments (A L : Type 0) : Type 0 where
  -- Arg_string::find_arg(args, "ram_quota").ulong_value(0)
  pub ram_quota : A → ℕ
  pub label_from_args : A → L
  pub prefix : L → L
  pub last_element : L → L
  -- Session_label::length, which counts the terminating zero
  pub length : L → ℕ
  -- a Session_label that was not set
  pub dummy : L

module _ {S A L C : Type 0} (k : Arguments A L) (warn : Warning → A → Proc (Rooted S) (Unit {0}))
    (dispatch : C → L → L → Proc (Rooted S) (Unit {0})) where
  -- `_accepted = nullptr`
  unfoldable pub reset : Proc (Rooted S) (Unit {0})
  reset s = (tt, record s { accepted = none })

  -- The call of `_dispatch` with name and label.
  unfoldable pub dispatch_label : C → L → Proc (Rooted S) (Unit {0})
  dispatch_label cap label =
      let component = k.prefix label in
      let last = k.last_element label in
      if ltb 1 (k.length component)
      then dispatch cap component last
      else dispatch cap last component

  -- The end of _create_session: the component that was accepted, or the exception.
  unfoldable pub conclude : A → Proc (Rooted S) Created
  conclude args s = elim s.accepted [
    | none ↦ (do warn denied args; pure service_denied) s
    | some component ↦ (granted component, s)
  ]

  -- `size` is the size of the component's class.
  unfoldable pub create_session : ℕ → C → A → Proc (Rooted S) Created
  unfolding reset dispatch_label conclude
  create_session size cap args =
      if ltb (k.ram_quota args) (max 4096 size)
      then (do warn insufficient_quota args; pure insufficient_ram_quota)
      else do reset; dispatch_label cap (k.label_from_args args); conclude args

  unfoldable pub destroy_session : C → Proc (Rooted S) (Unit {0})
  destroy_session cap = dispatch cap k.dummy k.dummy
