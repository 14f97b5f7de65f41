-- ===== src/Linux/Broker.antt =====
-- The answers of the broker: Send_Request, Send_Confirm and Send_Reject of
-- src/core/linux/gneiss-broker-message.adb. A label of more than 255 characters raises
-- Constraint_Error, and the result is false.
pub mod State
pub mod Lookup
pub mod Requests
pub mod Handlers
pub mod Messages
pub mod Platform
pub mod Exchange
pub mod Answer
pub mod Sessions
use ada_interfaces.Base.{
  ℕ, Bool, true, false, Option, none, some, List, [], length, ℤ, Proc, pure, ◌>>=◌, ◌>>◌,
}
use ada_interfaces.Linux.Socket as Socket
use ada_interfaces.Linux.Packet.Format.{Action, Kind}
use ada_interfaces.Linux.Packet.Format as Format
use ada_interfaces.Linux.Packet.Interface.{Calls}
use ada_interfaces.Linux.Packet.{SessionLabel, blank_label}
use ada_interfaces.Linux.Client.{Stack, assigned, raise_or, send}

module _ {C W : Type 0} (g : Calls C) (k : Socket.Calls W) where
  -- The common end: a name that is there already, and a label to assign.
  abbrev pub send_named : Stack → ℤ → Action → Kind → SessionLabel → List ℕ → List ℕ → Proc W Bool
  send_named s fd action kind name label fds =
      raise_or (assigned (length label) label) false
        (λ l. (do send g k s fd action kind name l fds; pure true))

  unfoldable pub send_request : Stack → ℤ → Kind → List ℕ → List ℕ → List ℕ → Proc W Bool
  unfolding send
  send_request s destination kind name label fds =
      raise_or (assigned (length name) name) false
        (λ n. send_named s destination Format.request kind n label fds)

  unfoldable pub send_confirm : Stack → ℤ → Kind → List ℕ → List ℕ → Proc W Bool
  unfolding send
  send_confirm s destination kind label fds =
      send_named s destination Format.confirm kind blank_label label fds

  unfoldable pub send_reject : Stack → ℤ → Kind → List ℕ → Proc W Bool
  unfolding send
  send_reject s destination kind label =
      send_named s destination Format.reject kind blank_label label []
