-- ===== src/Genode/Message/Signals.antt =====
-- Signals to the client of a message session, and the end of a server.
use ada_interfaces.Base.{put_at-same, ℕ, ◌≡◌, refl, Bool, false, Option, none, some, ap, ◌∙◌}
use ada_interfaces.Genode.Message.{
  State, Calls, Callbacks, new_component, check_factory, construct_component, server_initialize,
  component_sigh, component_signal, send_signal, server_component, server_finalize, Component, lift,
}

module _ {W : Type 0} (k : Calls W) where
  -- The heap when the component is made.
  abbrev pub ready : Option ℕ → State W → W
  ready env s = (check_factory k env s).1.rest.os

  pub initialize-some :
      (server c : ℕ) (env : Option ℕ) (callbacks : Callbacks) (s : State W)
      → (k.create_component (ready env s)).0 ≡ some c
      → ((server_initialize k server env callbacks s).1.rest.servers server ≡ some c)
        × ((server_initialize k server env callbacks s).1.rest.components c
            ≡ new_component server callbacks)
        × ((server_initialize k server env callbacks s).1.rest.os
            ≡ (k.create_component (ready env s)).1)
  unfolding server_initialize construct_component
  initialize-some server c env callbacks s e =
      let v = (check_factory k env s).1.rest in
      rw e (
        put_at-same v.servers server (some c),
        put_at-same v.components c (new_component server callbacks),
        refl,
      )

  signal-none :
      (c : ℕ) (s : State W) → (s.rest.components c).signal ≡ none → component_signal k c s ≡ (tt, s)
  unfolding component_signal
  signal-none c s e = rw (e, component_signal) refl

  signal-some :
      (c sig : ℕ) (s : State W)
      → (s.rest.components c).signal ≡ some sig
      → component_signal k c s ≡ lift (k.submit sig) s
  unfolding component_signal
  signal-some c sig s e = rw (e, component_signal) refl

  send-some :
      (server c : ℕ) (s : State W)
      → s.rest.servers server ≡ some c
      → send_signal k server s ≡ (some tt, (component_signal k c s).1)
  unfolding send_signal
  send-some server c s e = rw (e, send_signal) refl

  -- A server that was initialized with a new component sends no signal before the client has
  -- registered for one: send_signal changes nothing. Once the client has registered a valid
  -- capability, send_signal submits that one, once, and nothing else happens.
  pub send_signal-server_initialize :
      (server c sig : ℕ) (env : Option ℕ) (callbacks : Callbacks) (s : State W)
      → (k.create_component (ready env s)).0 ≡ some c
      → let s' = (server_initialize k server env callbacks s).1 in
        (send_signal k server s' ≡ (some tt, s'))
        × ((send_signal k server (component_sigh k c (some sig) s').1).1.rest.os
            ≡ (k.submit sig s'.rest.os).1)
  unfolding component_sigh
  send_signal-server_initialize server c sig env callbacks s e =
      let i = initialize-some server c env callbacks s e in
      let s' = (server_initialize k server env callbacks s).1 in
      let listening = (component_sigh k c (some sig) s').1 in
      let registered =
        put_at-same s'.rest.components c (record (s'.rest.components c) { signal = some sig }) in
      (
        send-some server c s' i.0
            ∙ ap (λ r. (some tt, r.1)) (signal-none c s' (ap Component.signal i.1)),
        ap (λ r. r.1.rest.os)
            (send-some server c listening i.0
              ∙ ap (λ r. (some tt, r.1))
                  (signal-some c sig listening (ap Component.signal registered))),
      )

  -- `live` says which components exist. After server_initialize and server_finalize the server
  -- still refers to a component, which does not exist any more.
  pub server_finalize-stale :
      (live : ℕ → W → Bool)
      → ((c : ℕ) (w : W) → live c (k.destroy_component (some c) w).1 ≡ false)
      → (server c : ℕ) (env : Option ℕ) (callbacks : Callbacks) (s : State W)
      → (k.create_component (ready env s)).0 ≡ some c
      → let s' = (server_finalize k server (server_initialize k server env callbacks s).1).1 in
        ((server_component k server s').0 ≡ some c) × (live c s'.rest.os ≡ false)
  unfolding server_finalize server_component
  server_finalize-stale live destroyed server c env callbacks s e =
      let i = initialize-some server c env callbacks s e in (i.0, rw (i.0) (destroyed c _))
