-- ===== src/Genode/Log/Lifetime.antt =====
-- A log session from its creation to its cleanup.
use native.Mathlib.Decide.{ℕ_discrete}
use ada_interfaces.Base.{
  put_at, put_at-same, put_at-other, ℕ, ◌≡◌, ◌≢◌, refl, Bool, true, false, Option, none, some,
  Option-cases, Bool-cases, inl, inr, ◌∙◌, sym, ap,
}
use ada_interfaces.Genode.Log.{
  State, Server, Calls, check_factory, create_component, server_initialize, server_finalize,
  session_initialize, cleanup, construct_component,
}

-- `live c w` says that the component at address `c` exists.
pub record HeapLaws {W : Type 0} (k : Calls W) : Type 0 where
  pub live : ℕ → W → Bool
  pub create_fresh :
      (c : ℕ) (w : W)
      → (k.create_component w).0 ≡ some c
      → (live c w ≡ false) × (live c (k.create_component w).1 ≡ true)
  pub create_other :
      (b : ℕ) (w : W)
      → (k.create_component w).0 ≢ some b
      → live b (k.create_component w).1 ≡ live b w
  pub destroy_self : (c : ℕ) (w : W) → live c (k.destroy_component (some c) w).1 ≡ false
  pub destroy_other :
      (c b : ℕ) (w : W) → b ≢ c → live b (k.destroy_component (some c) w).1 ≡ live b w
  pub destroy_null : (b : ℕ) (w : W) → live b (k.destroy_component none w).1 ≡ live b w
  pub factory_live :
      (env : Option ℕ) (b : ℕ) (w : W) → live b (k.construct_factory env w).1 ≡ live b w

pub some-injective : {a b : ℕ} → some a ≡ some b → a ≡ b
some-injective e = cc

module _ {W : Type 0} (k : Calls W) (t : HeapLaws k) where
  -- The heap when the constructor of a component is called.
  abbrev pub ready : State W → W
  ready s = (check_factory k s.rest.dispatcher.env s).1.rest.os

  ready-live : (b : ℕ) (s : State W) → t.live b (ready s) ≡ t.live b s.rest.os
  unfolding check_factory
  ready-live b s = elim (Bool-cases s.rest.factory) [
    | inl e ↦ rw e refl
    | inr e ↦ rw e (t.factory_live s.rest.dispatcher.env b s.rest.os)
  ]

  -- The objects are as they were once the factory is there.
  factory_same :
      (env : Option ℕ) (s : State W)
      → ((check_factory k env s).1.rest.servers ≡ s.rest.servers)
        × ((check_factory k env s).1.rest.owner ≡ s.rest.owner)
        × ((check_factory k env s).1.accepted ≡ s.accepted)
  unfolding check_factory
  factory_same env s = elim (Bool-cases s.rest.factory) [
    | inl e ↦ rw e (refl, refl, refl)
    | inr e ↦ rw e (refl, refl, refl)
  ]

  create_component-some :
      (server c : ℕ) (s : State W)
      → (k.create_component s.rest.os).0 ≡ some c
      → create_component k server s ≡ (
        some c,
        record s {
          rest = record s.rest {
            os = (k.create_component s.rest.os).1;
            owner = put_at s.rest.owner c server;
          };
        },
      )
  unfolding create_component construct_component
  create_component-some server c s e = rw e refl

  create_component-none :
      (server : ℕ) (s : State W)
      → (k.create_component s.rest.os).0 ≡ none
      → create_component k server s
        ≡ (none, record s { rest = record s.rest { os = (k.create_component s.rest.os).1 } })
  unfolding create_component construct_component
  create_component-none server s e = rw e refl

  -- A component that could be made is the server's, with the function that writes.
  pub initialize-some :
      (server f c : ℕ) (s : State W)
      → (k.create_component (ready s)).0 ≡ some c
      → ((session_initialize k server (some f) s).1.rest.servers server
          ≡ record { component = some c; write = some f })
        × ((session_initialize k server (some f) s).1.rest.owner c ≡ server)
        × ((session_initialize k server (some f) s).1.rest.os ≡ (k.create_component (ready s)).1)
        × ((n : ℕ)
            → n ≢ server
            → (session_initialize k server (some f) s).1.rest.servers n ≡ s.rest.servers n)
        × ((d : ℕ)
            → d ≢ c
            → (session_initialize k server (some f) s).1.rest.owner d ≡ s.rest.owner d)
  unfolding session_initialize server_initialize
  initialize-some server f c s e =
      let v = (check_factory k s.rest.dispatcher.env s).1.rest in
      rw (create_component-some server c (check_factory k s.rest.dispatcher.env s).1 e) (
        put_at-same v.servers server (record { component = some c; write = some f }),
        put_at-same v.owner c server,
        refl,
        λ n h.
            put_at-other v.servers server (record { component = some c; write = some f }) n h
            ∙ ap (λ f. f n) (factory_same s.rest.dispatcher.env s).0,
        λ d h.
            put_at-other v.owner c server d h
            ∙ ap (λ f. f d) (factory_same s.rest.dispatcher.env s).1,
      )

  -- Without a component the server is as it was.
  pub initialize-none :
      (server f : ℕ) (s : State W)
      → (k.create_component (ready s)).0 ≡ none
      → ((session_initialize k server (some f) s).1.rest.servers ≡ s.rest.servers)
        × ((session_initialize k server (some f) s).1.accepted ≡ s.accepted)
        × ((session_initialize k server (some f) s).1.rest.os ≡ (k.create_component (ready s)).1)
        × ((session_initialize k server (some f) s).1.rest.owner ≡ s.rest.owner)
  unfolding session_initialize server_initialize
  initialize-none server f s e =
      rw (create_component-none server (check_factory k s.rest.dispatcher.env s).1 e) (
        (factory_same s.rest.dispatcher.env s).0,
        (factory_same s.rest.dispatcher.env s).2,
        refl,
        (factory_same s.rest.dispatcher.env s).1,
      )

  -- Component `c` was made between `w` and `w'`, and no other was made or destroyed.
  abbrev pub Made : ℕ → W → W → Type 0
  Made c w w' =
      (t.live c w ≡ false) × (t.live c w' ≡ true) × ((b : ℕ) → b ≢ c → t.live b w' ≡ t.live b w)

  pub create-Made :
      (c : ℕ) (s : State W)
      → (k.create_component (ready s)).0 ≡ some c
      → Made c s.rest.os (k.create_component (ready s)).1
  create-Made c s e = (
    sym (ready-live c s) ∙ (t.create_fresh c (ready s) e).0,
    (t.create_fresh c (ready s) e).1,
    λ b h. t.create_other b (ready s) (λ q. h (some-injective (sym q ∙ e))) ∙ ready-live b s,
  )

  pub create-none :
      (s : State W)
      → (k.create_component (ready s)).0 ≡ none
      → (b : ℕ) → t.live b (k.create_component (ready s)).1 ≡ t.live b s.rest.os
  create-none s e b = t.create_other b (ready s) (λ q. cc) ∙ ready-live b s

  -- The servers after server_finalize.
  cleared :
      (server : ℕ) (s : State W) (servers : ℕ → Server)
      → s.rest.servers server ≡ record { component = none; write = none }
      → ((n : ℕ) → n ≢ server → servers n ≡ s.rest.servers n)
      → (n : ℕ)
      → put_at servers server (record { component = none; write = none }) n ≡ s.rest.servers n
  cleared server s servers blank same n = elim (ℕ_discrete n server) [
    | yes e ↦ rw e (put_at-same servers server _ ∙ sym blank)
    | no h ↦ put_at-other servers server _ n h ∙ same n h
  ]

  -- Destroying the one component that was made gives the old heap back.
  destroy-Made :
      (c b : ℕ) (w w' : W) → Made c w w' → t.live b (k.destroy_component (some c) w').1 ≡ t.live b w
  destroy-Made c b w w' made = elim (ℕ_discrete b c) [
    | yes e ↦ rw e (t.destroy_self c w' ∙ sym made.0)
    | no h ↦ t.destroy_other c b w' h ∙ made.2 b h
  ]

  -- After session_initialize and cleanup on a server that was not initialized, it is not
  -- initialized, every other server is as it was, and so is the heap: the component that
  -- session_initialize may have made is destroyed.
  pub cleanup-session_initialize :
      (server f : ℕ) (s : State W)
      → s.rest.servers server ≡ record { component = none; write = none }
      → let s' = (cleanup k server (session_initialize k server (some f) s).1).1 in
        ((n : ℕ) → s'.rest.servers n ≡ s.rest.servers n)
        × ((b : ℕ) → t.live b s'.rest.os ≡ t.live b s.rest.os)
  unfolding cleanup server_finalize
  cleanup-session_initialize server f s blank =
      elim (Option-cases (k.create_component (ready s)).0) [
        | inl e ↦
            let i = initialize-none server f s e in
            (
              λ n. cleared server s _ blank (λ m h. ap (λ g. g m) i.0) n,
              λ b.
                  rw (ap (λ g. (g server).component) i.0 ∙ ap (λ v. v.component) blank, i.2)
                    (t.destroy_null b _ ∙ create-none s e b),
            )
        | inr (c, e) ↦
            let i = initialize-some server f c s e in
            (
              λ n. cleared server s _ blank i.3 n,
              λ b.
                  rw (ap (λ v. v.component) i.0, i.2)
                    (destroy-Made c b s.rest.os _ (create-Made c s e)),
            )
      ]
