-- ===== src/Linux/Client/Frame.antt =====
-- What a packet that goes one way leaves alone at the other end.
use ada_interfaces.Base.{
  ℕ, ◌*◌, ◌≡◌, ◌≢◌, refl, ◌∙◌, Bool, true, false, Bool-cases, inl, inr, List, when, ℤ, is_neg,
}
use ada_interfaces.Linux.Socket as Socket
use ada_interfaces.Linux.Socket.{
  Warning, Flags, Outgoing, sendmsg_failed, recvmsg_failed, rights, gneiss_write_message,
  gneiss_read_message, read_message,
}
use ada_interfaces.Linux.Socket.Laws.{SocketLaws, PairLaws}
use ada_interfaces.Linux.Packet.Format.{Action, Kind}
use ada_interfaces.Linux.Packet.Interface.{Calls}
use ada_interfaces.Linux.Packet.{SessionLabel}
use ada_interfaces.Linux.Packet as Packet
use ada_interfaces.Linux.Client.{Stack, send, receive}

module _ {C W : Type 0} (g : Calls C) (k : Socket.Calls W) (t : SocketLaws k)
    (q : PairLaws k t) where
  when-pending :
      (b : Bool) (c : Warning) (other : ℤ) (w : W)
      → t.pending other (when b (k.warn c) w).1 ≡ t.pending other w
  when-pending true c other w = t.warn_same c other w
  when-pending false c other w = refl

  pub send_frame :
      (s : Stack) (fd other : ℤ) (action : Action) (kind : Kind) (name label : SessionLabel)
      (fds : List ℕ) (w : W)
      → other ≢ t.peer fd
      → t.pending other (send g k s fd action kind name label fds w).1 ≡ t.pending other w
  unfolding send gneiss_write_message Packet.send
  send_frame s fd other action kind name label fds w h =
      when-pending _ (sendmsg_failed fd) other _ ∙ q.send_other fd other _ w h

  read_frame :
      (sock other : ℤ) (msg : List ℕ) (size : ℕ) (fds : List ℕ) (num : ℕ) (trunc : ℤ) (f : Flags)
      (stack : List ℕ) (w : W)
      → other ≢ sock
      → t.pending other (read_message k sock msg size fds num trunc f stack w).1 ≡ t.pending other w
  unfolding read_message
  read_frame sock other msg size fds num trunc f stack w h =
      let same = q.recv_other sock other size (k.cmsg_space (4 * num)) stack f w h in
      elim (Bool-cases (is_neg (k.recvmsg sock size (k.cmsg_space (4 * num)) stack f w).0.result)) [
        | inl bad ↦ rw bad (t.warn_same (recvmsg_failed sock) other _ ∙ same)
        | inr good ↦ rw good same
      ]

  pub receive_frame :
      (s : Stack) (fd other : ℤ) (fds : List ℕ) (block : Bool) (w : W)
      → other ≢ fd
      → t.pending other (receive g k s fd fds block w).1 ≡ t.pending other w
  unfolding receive gneiss_read_message Packet.receive
  receive_frame s fd other fds block w h =
      read_frame fd other s.incoming _ fds _ s.trunc _ s.control w h
