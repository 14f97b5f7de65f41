-- ===== src/Genode/Log/Pool.antt =====
-- The log service over any sequence of sessions.
use native.Mathlib.Decide.{ℕ_discrete}
use ada_interfaces.Base.{
  ℕ, ◌≡◌, ◌≢◌, Bool, none, some, Option-cases, inl, inr, refl, ap, sym, ◌∙◌, put_at-same,
  put_at-other,
}
use ada_interfaces.Genode.Log.{
  State, Server, Calls, session_initialize, server_finalize, cleanup, accept,
}
use ada_interfaces.Genode.Log.Lifetime.{
  HeapLaws, ready, initialize-some, initialize-none, create-Made, create-none,
}
use ada_interfaces.Genode.Log.Accounts.{
  Accounts, start-Accounts, same-Accounts, made-Accounts, destroyed-Accounts, closed-Accounts,
}

-- What dispatchers do with their servers, one call after the other, from a state to another:
-- Session_Initialize of a server that is not initialized (`not Initialized (Server_S)` is its
-- precondition), Session_Accept and Session_Cleanup of any server.
pub data Run {W : Type 0} (k : Calls W) (s : State W) : State W → Type 0 where
  start : Run k s s
  opens :
      {s' : State W} (server f : ℕ)
      → Run k s s'
      → (s'.rest.servers server).component ≡ none
      → Run k s (session_initialize k server (some f) s').1
  accepts : {s' : State W} (server : ℕ) → Run k s s' → Run k s (accept k server s').1
  closes : {s' : State W} (server : ℕ) → Run k s s' → Run k s (cleanup k server s').1

module _ {W : Type 0} (k : Calls W) (t : HeapLaws k) where
  abbrev pub IsSound : (ℕ → Bool) → State W → Type 0
  IsSound base s =
      Accounts base (λ b. t.live b s.rest.os) (λ n. (s.rest.servers n).component) s.rest.owner

  opens-IsSound :
      (base : ℕ → Bool) (server f : ℕ) (s : State W)
      → (s.rest.servers server).component ≡ none
      → IsSound base s
      → IsSound base (session_initialize k server (some f) s).1
  opens-IsSound base server f s blank sound =
      elim (Option-cases (k.create_component (ready k t s)).0) [
        | inl e ↦
            let i = initialize-none k t server f s e in
            same-Accounts _ _ _ _ _ _ _ sound (λ b. ap (t.live b) i.2 ∙ create-none k t s e b)
              (λ n. ap (λ g. (g n).component) i.0) (λ c. ap (λ g. g c) i.3)
        | inr (c, e) ↦
            let i = initialize-some k t server f c s e in
            let made = create-Made k t c s e in
            made-Accounts _ _ _ _ _ _ _ sound server c made.0 (ap (t.live c) i.2 ∙ made.1)
              (λ b ne. ap (t.live b) i.2 ∙ made.2 b ne) blank (ap Server.component i.0)
              (λ n ne. ap Server.component (i.3 n ne)) i.1 i.4
      ]

  closes-IsSound :
      (base : ℕ → Bool) (server : ℕ) (s : State W)
      → IsSound base s
      → IsSound base (cleanup k server s).1
  unfolding cleanup server_finalize
  closes-IsSound base server s sound =
      let blank : Server = record { component = none; write = none } in
      let elsewhere : (n : ℕ) → n ≢ server → _ =
        λ n ne. ap Server.component (put_at-other s.rest.servers server blank n ne) in
      elim (Option-cases (s.rest.servers server).component) [
        | inl e ↦
            same-Accounts _ _ _ _ _ _ _ sound (λ b. rw e (t.destroy_null b s.rest.os))
              (λ n. elim (ℕ_discrete n server) [
                | yes p ↦
                    rw p (ap Server.component (put_at-same s.rest.servers server blank) ∙ sym e)
                | no ne ↦ elsewhere n ne
              ])
              (λ d. refl)
        | inr (c, e) ↦
            destroyed-Accounts _ _ _ _ _ _ _ sound server c e (rw e (t.destroy_self c s.rest.os))
              (λ b ne. rw e (t.destroy_other c b s.rest.os ne))
              (ap Server.component (put_at-same s.rest.servers server blank)) elsewhere (λ d. refl)
      ]

  accepts-IsSound :
      (base : ℕ → Bool) (server : ℕ) (s : State W)
      → IsSound base s
      → IsSound base (accept k server s).1
  unfolding accept
  accepts-IsSound base server s sound =
      same-Accounts _ _ _ _ _ _ _ sound (λ b. refl) (λ n. refl) (λ c. refl)

  runs-IsSound : (base : ℕ → Bool) {s s' : State W} → Run k s s' → IsSound base s → IsSound base s'
  runs-IsSound base start sound = sound
  runs-IsSound base (opens {s'} server f r blank) sound =
      opens-IsSound base server f s' blank (runs-IsSound base r sound)
  runs-IsSound base (accepts {s'} server r) sound =
      accepts-IsSound base server s' (runs-IsSound base r sound)
  runs-IsSound base (closes {s'} server r) sound =
      closes-IsSound base server s' (runs-IsSound base r sound)

  -- From servers that are not initialized, after any sequence of calls of dispatchers in which a
  -- session is only initialized on a server without a component, the precondition of
  -- Session_Initialize, and sessions are accepted and cleaned up at will: every component that a
  -- server refers to exists, names that server, and did not exist before, so that no two servers
  -- share one; what existed before still does; and every other component that exists is some
  -- server's. If no server has a component at the end, the heap is as it was.
  pub Run-IsSound :
      {s s' : State W}
      → Run k s s'
      → ((n : ℕ) → (s.rest.servers n).component ≡ none)
      → let base : ℕ → Bool = λ b. t.live b s.rest.os in
        IsSound base s'
        × (((n : ℕ) → (s'.rest.servers n).component ≡ none)
            → (b : ℕ) → t.live b s'.rest.os ≡ t.live b s.rest.os)
  Run-IsSound {s} {s'} r blank =
      let base : ℕ → Bool = λ b. t.live b s.rest.os in
      let sound = runs-IsSound base r (start-Accounts base _ s.rest.owner blank) in
      (sound, closed-Accounts base _ _ _ sound)
