-- ===== src/Tests/Requests.antt =====
-- Requests for sessions over the kernel of Tests/Pairs.
use ada_interfaces.Base.{
  ℕ, ◌<◌, ◌≡◌, refl, true, Option, some, List, [], ◌∷◌, length, map, replicate, length-replicate,
  get_elem?, pos, negsuc, arith,
}
use ada_interfaces.Linux.Socket.{no_fd}
use ada_interfaces.Linux.Packet.Format.{encode, decode, decode-encode}
use ada_interfaces.Linux.Packet.Format as Format
use ada_interfaces.Linux.Packet.{BrokerMessage, blank_label, send, receive}
use ada_interfaces.Linux.Packet.Written.{packet_of}
use ada_interfaces.Linux.Packet.Parsed.{Reports}
use ada_interfaces.Linux.Packet.Delivery.{receive-send}
use ada_interfaces.Linux.Client.{Stack, valid_prefix, initialize}
use ada_interfaces.Linux.Broker.Exchange.{label_of}
use ada_interfaces.Linux.Broker.Answer.{asked, served, confirms, rejects, request_of}
use ada_interfaces.Linux.Broker.Sessions.{initialize-send_confirm, initialize-send_reject}
use ada_interfaces.Tests.Sockets.{number}
use ada_interfaces.Tests.Pairs.{Queues, pair_kernel, pair_socket, pair_laws}
use ada_interfaces.Tests.Packets.{generated, generated_laws}

abbrev pub silent : Queues
silent n = []

-- What a buffer held before: 1024 times the same byte.
abbrev pub held : ℕ → List ℕ
held n = replicate 1024 n

abbrev log_label : List ℕ
log_label = 108 ∷ 111 ∷ 103 ∷ []

abbrev sent : Queues
sent =
    (send generated pair_kernel (held 7) (pos 3) Format.request Format.memory blank_label
      (label_of log_label) (5 ∷ []) silent).1

abbrev got : (Option BrokerMessage × List ℕ) × Queues
got = receive generated pair_kernel (held 9) (negsuc 3) (0 ∷ []) (pos 0) true [] sent

-- The bytes on the wire; the last one does not belong to the packet.
wire_bytes :
    decode (0 ∷ 2 ∷ 0 ∷ 3 ∷ 108 ∷ 111 ∷ 103 ∷ 9 ∷ []) ≡ some (request_of Format.memory log_label)
unfolding decode Format.action_of Format.kind_of
wire_bytes = refl

held_long : (n : ℕ) → length (held n) ≡ 1024
held_long n = length-replicate 1024 n

receive-send_example :
    Reports got.0.0 (packet_of Format.request Format.memory blank_label (label_of log_label))
    × (map number got.0.1 ≡ 5 ∷ [])
    × (pair_socket.pending (negsuc 3) got.1 ≡ [])
receive-send_example =
    receive-send generated pair_kernel generated_laws pair_socket (held 7) (pos 3) Format.request
      Format.memory blank_label (label_of log_label) (5 ∷ []) silent (held 9) (0 ∷ []) (pos 0) true
      [] (held_long 7) (held_long 9) (omega arith, length-replicate {A = ℕ} 255 0)
      (omega arith, refl) (omega arith, tt) (λ e. cc e) refl refl refl

abbrev pub stack : Stack
stack = record { outgoing = held 7; incoming = held 9; trunc = pos 0; control = [] }

abbrev at_broker : (Option BrokerMessage × List ℕ) × Queues
at_broker =
    served generated pair_kernel generated_laws pair_socket pair_laws stack (pos 3) (0 ∷ []) (
      asked generated pair_kernel generated_laws pair_socket pair_laws stack (pos 3) Format.log
        (no_fd ∷ []) log_label silent)

abbrev after_confirm : Option (List ℕ) × Queues
after_confirm =
    initialize generated pair_kernel stack
      (confirms generated pair_kernel generated_laws pair_socket pair_laws stack (pos 3) (0 ∷ [])
        Format.log log_label (5 ∷ []))
      (pos 3) Format.log (no_fd ∷ []) log_label silent

initialize-send_confirm_example :
    Reports at_broker.0.0 (request_of Format.log log_label)
    × ((out : List ℕ) × (after_confirm.0 ≡ some out) × (map number out ≡ 5 ∷ []))
unfolding valid_prefix
initialize-send_confirm_example =
    initialize-send_confirm generated pair_kernel generated_laws pair_socket pair_laws stack stack
      (pos 3) Format.log (no_fd ∷ []) log_label (0 ∷ []) silent log_label (5 ∷ [])
      (held_long 7, held_long 9) (held_long 7, held_long 9) (omega arith) (omega arith) tt
      (omega arith, tt) (λ e. cc e) refl refl refl refl refl

abbrev after_reject : Option (List ℕ) × Queues
after_reject =
    initialize generated pair_kernel stack
      (rejects generated pair_kernel generated_laws pair_socket pair_laws stack (pos 3) (0 ∷ [])
        Format.log log_label)
      (pos 3) Format.log (no_fd ∷ []) log_label silent

initialize-send_reject_example :
    (out : List ℕ) × (after_reject.0 ≡ some out) × ((i : ℕ) → i < 1 → get_elem? out i ≡ some no_fd)
unfolding valid_prefix
initialize-send_reject_example =
    initialize-send_reject generated pair_kernel generated_laws pair_socket pair_laws stack stack
      (pos 3) Format.log (no_fd ∷ []) log_label (0 ∷ []) silent log_label (held_long 7, held_long 9)
      (held_long 7, held_long 9) (omega arith) (omega arith) tt refl refl refl refl
