-- ===== src/Genode/Log/Session.antt =====
-- The way of a text from a component to the write function of the server that it was created for.
use ada_interfaces.Base.{ℕ, ◌≡◌, refl, Option, some, List, length, Proc, store32}
use ada_interfaces.Genode.Log.{State, Calls, session_initialize, component_write}
use ada_interfaces.Genode.Log.Lifetime.{HeapLaws, ready, initialize-some}

module _ {W : Type 0} (k : Calls W) (t : HeapLaws k) where
  -- If session_initialize of a server with a write function creates a component, a text that the
  -- component is asked to write reaches that function: it is called once, with that server, the
  -- text and its length, and gives the lower 32 of the 64 bits of the result. The upper half is
  -- what the stack held.
  pub component_write-session_initialize :
      (call : Option ℕ → ℕ → List ℕ → ℕ → Proc (State W) ℕ) (server f c : ℕ) (text : List ℕ)
      (stack : ℕ)
      → (s : State W) → (k.create_component (ready k t s)).0 ≡ some c
      → let s' = (session_initialize k server (some f) s).1 in
        component_write k call c text stack s' ≡ (
          store32 stack (some (call (some f) server text (length text) s').0),
          (call (some f) server text (length text) s').1,
        )
  unfolding component_write
  component_write-session_initialize call server f c text stack s e =
      rw ((initialize-some k t server f c s e).1, (initialize-some k t server f c s e).0) refl
