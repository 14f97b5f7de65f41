-- ===== src/Genode/Message/Client/Rpc.antt =====
-- A message client whose calls reach the component of a server.
use ada_interfaces.Genode.Factory.{check_factory}
use ada_interfaces.Base.{
  ℕ, ◌≡◌, refl, Bool, Option, some, List, ap, ◌∙◌, ℤ, of_bool, is_nonzero, Proc, put_at-same,
  replicate,
}
use ada_interfaces.Genode.Message
use ada_interfaces.Genode.Message.Signals
use ada_interfaces.Genode.Message.{
  State, Callbacks, Component, new_component, server_initialize, component_sigh, component_write,
  component_read, component_avail, send_signal,
}
use ada_interfaces.Genode.Message.Signals.{ready, send_signal-server_initialize}
use ada_interfaces.Genode.Message.Client.{
  Calls, Client, session_args, register, connect, initialize, write, read, avail,
}

-- The functions of a server, which get the server and the buffer.
pub record Functions (W : Type 0) : Type 0 where
  pub avail : Option ℕ → ℕ → Proc (State W) ℤ
  pub receive : Option ℕ → ℕ → List ℕ → Proc (State W) (Unit {0})
  pub get : Option ℕ → ℕ → List ℕ → Proc (State W) (List ℕ)

-- Genode carries the calls of a client to the component that serves its session.
pub record RpcLaws {W : Type 0} (k : Calls (State W)) (m : Message.Calls W) (f : Functions W)
    : Type 0 where
  pub sigh : (c : ℕ) (sig : Option ℕ) (s : State W) → k.rpc_sigh c sig s ≡ component_sigh m c sig s
  pub sent :
      (c : ℕ) (buf : List ℕ) (s : State W)
      → k.rpc_write (some c) buf s ≡ component_write m f.receive c buf s
  pub read : (c : ℕ) (s : State W) → k.rpc_read (some c) s ≡ component_read m f.get c s
  pub avail : (c : ℕ) (s : State W) → k.rpc_avail (some c) s ≡ component_avail m f.avail c s

module _ {W : Type 0} (k : Calls (State W)) (m : Message.Calls W) (f : Functions W)
    (t : RpcLaws k m f) where
  register-some :
      (env : Option ℕ) (c sig : ℕ) (s : State W)
      → k.create_handler env Bool.true s ≡ (sig, s)
      → register k env (some c) s ≡ component_sigh m c (some sig) s
  unfolding register
  register-some env c sig s handled =
      ap (λ h. k.rpc_sigh c (some h.0) h.1) handled ∙ t.sigh c (some sig) s

  initialize-some :
      (env : Option ℕ) (label : List ℕ) (client : Client) (c sig : ℕ) (s : State W)
      → (check_factory k.factory env s).1 ≡ s
      → k.open_session env (session_args label) s ≡ (some c, s)
      → k.create_handler env Bool.true s ≡ (sig, s)
      → initialize k env label client s
        ≡ (record client { connection = some c }, (component_sigh m c (some sig) s).1)
  unfolding initialize connect
  initialize-some env label client c sig s quiet opened handled =
      rw (quiet, opened, register-some env c sig s handled) refl

  -- The component of a server after the client has registered its signal handler.
  registered :
      (server c sig : ℕ) (env : Option ℕ) (callbacks : Callbacks) (s : State W)
      → (m.create_component (ready m env s)).0 ≡ some c
      → let s1 = (server_initialize m server env callbacks s).1 in
        (component_sigh m c (some sig) s1).1.rest.components c
        ≡ record (new_component server callbacks) { signal = some sig }
  unfolding component_sigh
  registered server c sig env callbacks s e =
      let s1 = (server_initialize m server env callbacks s).1 in
      put_at-same s1.rest.components c (record (s1.rest.components c) { signal = some sig })
      ∙ ap {A = Component} (λ v. record v { signal = some sig })
          (Signals.initialize-some m server c env callbacks s e).1

  write_lem :
      (client : Client) (c : ℕ) (buf : List ℕ) (v : Component) (s : State W)
      → client.connection ≡ some c
      → s.rest.components c ≡ v
      → write k client buf s ≡ f.receive v.callbacks.receive v.owner buf s
  unfolding write component_write
  write_lem client c buf v s e o =
      rw e (t.sent c buf s ∙ ap (λ x. f.receive x.callbacks.receive x.owner buf s) o)

  read_lem :
      (client : Client) (c : ℕ) (v : Component) (s : State W)
      → client.connection ≡ some c
      → s.rest.components c ≡ v
      → (read k client s).0 ≡ (f.get v.callbacks.get v.owner v.buffer s).0
  unfolding read component_read
  read_lem client c v s e o =
      rw e (ap (λ x. x.0) (t.read c s) ∙ ap (λ x. (f.get x.callbacks.get x.owner x.buffer s).0) o)

  avail_lem :
      (client : Client) (c : ℕ) (v : Component) (s : State W)
      → client.connection ≡ some c
      → s.rest.components c ≡ v
      → (avail k client s).0 ≡ of_bool (is_nonzero (f.avail v.callbacks.avail v.owner s).0)
  unfolding avail component_avail
  avail_lem client c v s e o = rw e (
      ap (λ x. of_bool x.0) (t.avail c s)
      ∙ ap (λ x. of_bool (is_nonzero (f.avail x.callbacks.avail x.owner s).0)) o)

  -- Once a client is initialized on the session that a server made, the two are connected: a
  -- signal of the server is submitted to the handler of the client, what the client writes goes to
  -- the server's function for messages with the server and the same bytes, what it reads is what
  -- the server's function for reading gives, and avail is 1 if the server's function says that
  -- there is a message and 0 if not.
  pub initialize-server_initialize :
      (server c sig : ℕ) (env server_env : Option ℕ) (callbacks : Callbacks) (label : List ℕ)
      (client : Client) (s : State W)
      → (m.create_component (ready m server_env s)).0 ≡ some c
      → let s1 = (server_initialize m server server_env callbacks s).1 in
        (check_factory k.factory env s1).1 ≡ s1
        → k.open_session env (session_args label) s1 ≡ (some c, s1)
        → k.create_handler env Bool.true s1 ≡ (sig, s1)
        → let client' = (initialize k env label client s1).0 in
          let s2 = (initialize k env label client s1).1 in
          ((send_signal m server s2).1.rest.os ≡ (m.submit sig s1.rest.os).1)
          × ((buf : List ℕ) → write k client' buf s2 ≡ f.receive callbacks.receive server buf s2)
          × ((read k client' s2).0 ≡ (f.get callbacks.get server (replicate 128 0) s2).0)
          × ((avail k client' s2).0 ≡ of_bool (is_nonzero (f.avail callbacks.avail server s2).0))
  initialize-server_initialize server c sig env server_env callbacks label client s made quiet
        opened handled =
      let s1 = (server_initialize m server server_env callbacks s).1 in
      let s2 = (component_sigh m c (some sig) s1).1 in
      let client' : Client = record client { connection = some c } in
      let v : Component = record (new_component server callbacks) { signal = some sig } in
      let own = registered server c sig server_env callbacks s made in
      rw (initialize-some env label client c sig s1 quiet opened handled) (
        (send_signal-server_initialize m server c sig server_env callbacks s made).1,
        λ buf. write_lem client' c buf v s2 refl own,
        read_lem client' c v s2 refl own,
        avail_lem client' c v s2 refl own,
      )
