-- ===== src/Genode/Memory/Attach.antt =====
-- A memory server between session_initialize and finalize.
use ada_interfaces.Base.{
  put_at, put_at-same, ℕ, ◌≡◌, ◌⊎◌, refl, Option, none, some, Bool-cases, Option-cases, inl, inr,
  ap, ◌∙◌,
}
use ada_interfaces.Genode.Memory.{
  State, Calls, Server, Dataspace, Capability, check_factory, construct_component,
  server_initialize, session_initialize, server_finalize, component_dataspace,
}

module _ {W : Type 0} (k : Calls W) where
  factory_servers :
      (env : Option ℕ) (s : State W) → (check_factory k env s).1.rest.servers ≡ s.rest.servers
  unfolding check_factory
  factory_servers env s = elim (Bool-cases s.rest.factory) [ inl e ↦ rw e refl | inr e ↦ rw e refl ]

  -- What the heap makes for a request.
  abbrev pub offered : Capability → State W → Option (ℕ × Dataspace)
  offered capability s =
      (k.create_component capability.size (check_factory k s.rest.dispatcher.env s).1.rest.os).0

  -- session_initialize either gives the server the component that the heap offers, with the address and the size of its
  -- dataspace, whose capability the component hands out to the client, or leaves the server
  -- without a component where the heap offers none, its address and size being as they were.
  session_initialize-outcome :
      (capability : Capability) (server : ℕ) (s : State W)
      → let s' = (session_initialize k capability server s).1 in
        ((c : ℕ) × (ds : Dataspace) × (offered capability s ≡ some (c, ds))
          × (s'.rest.servers server
              ≡ record { component = some c; addr = some ds.local_addr; size = ds.size })
          × ((component_dataspace k c s').0 ≡ ds.cap))
        ⊎ ((offered capability s ≡ none)
            × (s'.rest.servers server ≡ record (s.rest.servers server) { component = none }))
  unfolding session_initialize server_initialize construct_component component_dataspace
  session_initialize-outcome capability server s =
      let v = (check_factory k s.rest.dispatcher.env s).1.rest in
      elim (Option-cases (k.create_component capability.size v.os).0) [
        | inl e ↦ rw e (
            inr (
              refl,
              put_at-same v.servers server (record (v.servers server) { component = none })
                  ∙ ap (λ g. record (g server) { component = none })
                      (factory_servers s.rest.dispatcher.env s),
            ))
        | inr ((c, ds), e) ↦ rw e (
            inl (
              c,
              ds,
              refl,
              put_at-same v.servers server
                  (record { component = some c; addr = some ds.local_addr; size = ds.size }),
              ap Dataspace.cap (put_at-same v.dataspaces c ds),
            ))
      ]

  -- server_finalize destroys the component that session_initialize made, no other, and the server
  -- has neither a component nor an address afterwards.
  server_finalize-session_initialize :
      (capability : Capability) (server c : ℕ) (ds : Dataspace) (s : State W)
      → offered capability s ≡ some (c, ds)
      → let s' = (session_initialize k capability server s).1 in
        let s'' = (server_finalize k server s').1 in
        (s''.rest.os ≡ (k.destroy_component (some c) s'.rest.os).1)
        × ((s''.rest.servers server).component ≡ none)
        × ((s''.rest.servers server).addr ≡ none)
  unfolding session_initialize server_initialize construct_component server_finalize
  server_finalize-session_initialize capability server c ds s e =
      let v = (check_factory k s.rest.dispatcher.env s).1.rest in
      let own : Server = record { component = some c; addr = some ds.local_addr; size = ds.size } in
      let mine = put_at-same v.servers server own in
      rw e (
        rw (ap Server.component mine) refl,
        ap Server.component (put_at-same (put_at v.servers server own) server _),
        ap Server.addr (put_at-same (put_at v.servers server own) server _),
      )

  -- session_initialize gives the server the component that the heap offers, with the address and
  -- the size of its dataspace, whose capability the component hands out to the client, and
  -- server_finalize destroys that component, no other, and leaves the server without a component
  -- and an address. Where the heap offers none, the server has no component, its address and size
  -- stay, and server_finalize destroys nothing.
  pub session_initialize_lifetime :
      (capability : Capability) (server : ℕ) (s : State W)
      → let s' = (session_initialize k capability server s).1 in
        let s'' = (server_finalize k server s').1 in
        ((c : ℕ) × (ds : Dataspace) × (offered capability s ≡ some (c, ds))
          × (s'.rest.servers server
              ≡ record { component = some c; addr = some ds.local_addr; size = ds.size })
          × ((component_dataspace k c s').0 ≡ ds.cap)
          × (s''.rest.os ≡ (k.destroy_component (some c) s'.rest.os).1)
          × ((s''.rest.servers server).component ≡ none)
          × ((s''.rest.servers server).addr ≡ none))
        ⊎ ((offered capability s ≡ none)
            × (s'.rest.servers server ≡ record (s.rest.servers server) { component = none })
            × (s''.rest.os ≡ (k.destroy_component none s'.rest.os).1))
  unfolding server_finalize
  session_initialize_lifetime capability server s =
      elim (session_initialize-outcome capability server s) [
        | inl (c, ds, e, own, cap_) ↦
            let f = server_finalize-session_initialize capability server c ds s e in
            inl (c, ds, e, own, cap_, f.0, f.1, f.2)
        | inr (e, none_) ↦ inr (e, none_, rw (ap Server.component none_) refl)
      ]
