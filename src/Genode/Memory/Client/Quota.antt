-- ===== src/Genode/Memory/Client/Quota.antt =====
-- The quota that a memory client sends is enough for the root of the service.
use ada_interfaces.Base.{
  ℕ, ◌+◌, ◌^◌, ◌≡◌, ◌≤◌, ◌<◌, refl, none, some, List, max, le→not-ltb, ◌⊎◌, subst, ap, sym, arith,
  pos, ℤ, ◌∙◌, Option-cases, inl, inr, Proc,
}
use ada_interfaces.Genode.Root.{
  Warning, Arguments, granted, service_denied, create_session, conclude, reset, dispatch_label,
}
use ada_interfaces.Genode.Memory
use ada_interfaces.Genode.Memory.{State, Capability, create_memory_session}
use ada_interfaces.Genode.Memory.Client.{SessionArgs, session_args, to_long}

-- `print` and `find_size` are Genode's: the text of the arguments, and what Arg_string finds in it.
module _ {W A L : Type 0} (k : Memory.Calls W) (args : Arguments A L) (print : SessionArgs → A)
    (find_size : A → ℤ) (warn : Warning → A → Proc W (Unit {0}))
    (dispatch : Capability → L → L → Proc (State W) (Unit {0})) where
  quota_enough :
      (label : List ℕ) (size : ℕ)
      → k.sizeof_component ≤ 8192
      → size + 8192 < 2 ^ 64
      → max 4096 k.sizeof_component ≤ (session_args label size).ram_quota
  unfolding session_args
  quota_enough label size small fits = omega arith

  size_kept :
      (label : List ℕ) (size : ℕ) → size < 2 ^ 63 → (session_args label size).memory_size ≡ pos size
  unfolding session_args to_long
  size_kept label size fits = ground arith

  conclude_cases :
      (a : A) (s : State W)
      → let r = conclude args (λ r b. Memory.lift (warn r b)) dispatch a s in
        ((c : ℕ) × (s.accepted ≡ some c) × (r ≡ (granted c, s)))
        ⊎ ((s.accepted ≡ none) × (r.0 ≡ service_denied))
  unfolding conclude
  conclude_cases a s = elim (Option-cases s.accepted) [
    | inl e ↦ rw e (inr (refl, refl))
    | inr (c, e) ↦ rw e (inl (c, refl, refl))
  ]

  asking :
      (a : A) (size : ℤ) (s : State W)
      → find_size a ≡ size
      → create_memory_session k args find_size warn dispatch a s
        ≡ create_session args
            (λ r b. Memory.lift (warn r b))
            dispatch
            k.sizeof_component
            (record { session = none; size = size })
            a
            s
  unfolding create_memory_session
  asking a size s e =
      ap
        (λ n.
          create_session args (λ r b. Memory.lift (warn r b)) dispatch k.sizeof_component
            (record { session = none; size = n }) a s)
        e

  -- The quota of a memory connection passes the root's test and its size reaches the service, for
  -- a label and a size for which Genode finds in the text of the arguments the quota and the size
  -- that the connection printed there: the dispatcher is called, with no session and exactly the
  -- size that the client wants, and the client gets the component that it accepted, or
  -- Service_denied if it accepted none. The size has to leave room for the quota, and a component
  -- must fit in 8192 bytes.
  pub create_memory_session-session_args :
      (label : List ℕ) (size : ℕ) (s : State W)
      → args.ram_quota (print (session_args label size)) ≡ (session_args label size).ram_quota
      → find_size (print (session_args label size)) ≡ (session_args label size).memory_size
      → k.sizeof_component ≤ 8192
      → size + 8192 < 2 ^ 63
      → let a = print (session_args label size) in
        let r = create_memory_session k args find_size warn dispatch a s in
        let asked =
          (dispatch_label args
            (λ r b. Memory.lift (warn r b))
            dispatch
            (record { session = none; size = pos size })
            (args.label_from_args a)
            (record s { accepted = none })).1 in
        ((c : ℕ) × (asked.accepted ≡ some c) × (r ≡ (granted c, asked)))
        ⊎ ((asked.accepted ≡ none) × (r.0 ≡ service_denied))
  unfolding create_session reset
  create_memory_session-session_args label size s parsed found small fits =
      let a = print (session_args label size) in
      let enough : max 4096 k.sizeof_component ≤ args.ram_quota a =
        subst (λ n. max 4096 k.sizeof_component ≤ n) (sym parsed)
          (quota_enough label size small (omega arith)) in
      rw
        (
          asking a (pos size) s (found ∙ size_kept label size (omega arith)),
          le→not-ltb (args.ram_quota a) (max 4096 k.sizeof_component) enough,
        )
        (conclude_cases a _)
