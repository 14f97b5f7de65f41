-- ===== src/Linux/Broker/Platform.antt =====
-- The broker's calls on Linux: src/platform/linux/gneiss_internal-syscall.adb and
-- gneiss_internal-epoll.adb, which pass them on to the C functions, and the packets of the broker.
pub mod Quiet
pub mod Packets
use ada_interfaces.Base.{
  ℕ, ◌-◌, ◌%◌, ◌^◌, Bool, false, List, [], ◌∷◌, map, ℤ, pos, negsuc, int_eq, Proc, pure, ◌>>=◌,
}
use ada_interfaces.Linux.Descriptor as Descriptor
use ada_interfaces.Linux.Memfile as Memfile
use ada_interfaces.Linux.Memfile.{gneiss_memfd_seal, to_int}
use ada_interfaces.Linux.Epoll as Epoll
use ada_interfaces.Linux.Socket as Socket
use ada_interfaces.Linux.Socket.{no_fd}
use ada_interfaces.Linux.Packet.Interface as Interface
use ada_interfaces.Linux.Client.{Stack}
use ada_interfaces.Linux.Client as Client
use ada_interfaces.Linux.Broker.{send_request, send_confirm, send_reject}
use ada_interfaces.Linux.Broker.Requests.{Calls}

-- The 32 bits of a descriptor.
unfoldable pub pattern : ℤ → ℕ
pattern (pos n) = n % 2 ^ 32
pattern (negsuc n) = 2 ^ 32 - 1 - n % 2 ^ 32

abbrev done : {W : Type 0} → Proc W Bool → Proc W (Unit {0})
done m w = (tt, (m w).1)

module _ {C W : Type 0} (d : Descriptor.Calls W) (f : Memfile.Calls W) (e : Epoll.Calls W)
    (g : Interface.Calls C) (k : Socket.Calls W) where
  -- `place` is where a path stands in memory, `s` what uninitialised variables hold. The labels of
  -- the broker have at most 255 characters, so that no packet raises Constraint_Error.
  unfoldable pub platform : (List ℕ → ℕ) → Stack → Calls W
  unfolding pattern send_request send_confirm send_reject
  platform place s = record {
    socketpair = Descriptor.gneiss_socketpair d;
    close = Descriptor.gneiss_close d;
    memfd_seal = λ fd. (do r ← gneiss_memfd_seal f fd; pure (int_eq r (pos 1)));
    openfile = λ path. Descriptor.gneiss_open d (place path) false;
    timerfd_create = Descriptor.gneiss_timerfd_create d;
    epoll_add = λ efd fd. (do r ← Epoll.gneiss_epoll_add_fd e efd fd fd; pure (int_eq r (pos 0)));
    send_request =
        λ fd kind name label fds. done (send_request g k s fd kind name label (map pattern fds));
    send_confirm = λ fd kind label fds. done (send_confirm g k s fd kind label (map pattern fds));
    send_reject = λ fd kind label. done (send_reject g k s fd kind label);
    receive = λ fd. (do
      (msg, fds) ← Client.receive g k s fd (no_fd ∷ no_fd ∷ no_fd ∷ no_fd ∷ []) false
      pure (msg, map to_int fds));
  }
