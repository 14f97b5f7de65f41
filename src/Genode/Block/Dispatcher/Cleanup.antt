-- ===== src/Genode/Block/Dispatcher/Cleanup.antt =====
-- From the request for a session to its end.
use ada_interfaces.Base.{
  ℕ, ◌≡◌, ◌<◌, refl, true, false, none, some, ap, ◌∙◌, sym, leb, ◌==◌, ==_iff, arith, Option-cases,
  inl, inr,
}
use ada_interfaces.Genode.Block.Server
use ada_interfaces.Genode.Block.Server.{Server, root_cap}
use ada_interfaces.Genode.Block.Dispatcher.{
  Dcap, Dispatcher, Calls, granted, session, session_accept, session_cleanup, closing, conclude,
  cleanup_of, same_cap,
}

-- The capability of a root's session stays the same.
pub record CapLaws {W : Type 0} (k : Server.Calls W) : Type 0 where
  pub cap_of : ℕ → ℕ
  pub session_cap : (root : ℕ) (w : W) → (k.session_cap root w).0 ≡ cap_of root

lt-leb : (a b : ℕ) → a < b → leb b a ≡ false
lt-leb a b h = ground arith

module _ {W A : Type 0} (k : Calls W A) (sk : Server.Calls W) (t : CapLaws sk) where
  granted_lem :
      (d : Dispatcher) (args : A) (server : Server) (root : ℕ) (w : W)
      → server.session ≡ some root
      → k.tx_buf_size args < k.ram_quota args
      → ((dcap : Dcap) (v : W) → (k.dispatch d dcap v).0 ≡ session_accept dcap server)
      → (session k sk d args w).0 ≡ granted (t.cap_of root)
  unfolding session session_accept conclude root_cap
  granted_lem d args server root w here enough accepts =
      let asked : Dcap = record {
        size = k.tx_buf_size args;
        label = some (k.label args);
        root = none;
        cap = none;
      } in
      rw (lt-leb (k.tx_buf_size args) (k.ram_quota args) enough, accepts asked w, here)
        (ap granted (t.session_cap root _))

  cleanup_own :
      (cap root : ℕ) (server : Server) (w : W)
      → server.session ≡ some root
      → (session_cleanup k sk (closing cap) server w).0 ≡ (t.cap_of root == cap)
  unfolding session_cleanup cleanup_of closing same_cap root_cap
  cleanup_own cap root server w here = rw here (ap (λ c. c == cap) (t.session_cap root w))

  cleanup_none :
      (cap : ℕ) (server : Server) (w : W)
      → server.session ≡ none
      → (session_cleanup k sk (closing cap) server w).0 ≡ false
  unfolding session_cleanup cleanup_of
  cleanup_none cap server w e = rw e refl

  -- A dispatcher that accepts a server for every request grants the capability of the server's
  -- session to a client whose buffer is smaller than its quota. When that capability is closed,
  -- session_cleanup is true for this server, and for no server without a session or with a
  -- session of another capability.
  pub session_cleanup-session :
      (d : Dispatcher) (args : A) (server : Server) (root : ℕ) (w : W)
      → server.session ≡ some root
      → k.tx_buf_size args < k.ram_quota args
      → ((dcap : Dcap) (v : W) → (k.dispatch d dcap v).0 ≡ session_accept dcap server)
      → ((session k sk d args w).0 ≡ granted (t.cap_of root))
        × ((v : W) → (session_cleanup k sk (closing (t.cap_of root)) server v).0 ≡ true)
        × ((other : Server) (v : W)
            → (session_cleanup k sk (closing (t.cap_of root)) other v).0 ≡ true
            → (r : ℕ) × (other.session ≡ some r) × (t.cap_of r ≡ t.cap_of root))
  session_cleanup-session d args server root w here enough accepts = (
    granted_lem d args server root w here enough accepts,
    λ v.
        cleanup_own (t.cap_of root) root server v here
        ∙ (==_iff (t.cap_of root) (t.cap_of root)).1 refl,
    λ other v yes_. elim (Option-cases other.session) [
      | inl e ↦ cc (cleanup_none (t.cap_of root) other v e, yes_)
      | inr (r, e) ↦ (
        r,
        e,
        (==_iff (t.cap_of r) (t.cap_of root)).0
            (sym (cleanup_own (t.cap_of root) r other v e) ∙ yes_),
      )
    ],
  )
