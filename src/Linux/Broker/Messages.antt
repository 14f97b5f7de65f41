-- ===== src/Linux/Broker/Messages.antt =====
-- What the broker does with a packet: Read_Message, Handle_Message and the smaller Process_
-- procedures of src/core/linux/gneiss-broker-message.adb.
pub mod Soundness
use ada_interfaces.Base.{
  ℕ, ◌+◌, Bool, true, false, not, ◌&&◌, ◌||◌, Option, none, some, List, [], ◌∷◌, length, set, take,
  get_elem?, ltb, leb, if◌then◌else◌, ℤ, is_neg, Proc, pure, ◌>>=◌, ◌>>◌,
}
use ada_interfaces.Linux.Packet.Format.{
  Action, Kind, request, confirm, reject, register, message, log, memory, rom, timer,
}
use ada_interfaces.Linux.Packet.{BrokerMessage, contents}
use ada_interfaces.Linux.Client.{same_kind}
use ada_interfaces.Linux.Broker.State.{Service, Component, State}
use ada_interfaces.Linux.Broker.Lookup.{
  Answer, found, Xml, attr_name, match_service, find_component_by_name,
}
use ada_interfaces.Linux.Broker.Requests.{
  Calls, Provider, missing, itself, component, first, setup_service, process_message_request,
  process_memory_request, process_timer_request, process_rom_request, close_all, lookup_request,
}
use ada_interfaces.Linux.Broker.Handlers.{
  put_service, destination, provider_of, is_served, process_request,
}

module _ {W N : Type 0} (k : Calls W) (x : Xml N) where
  -- A confirmation from a service goes to the component with that name.
  unfoldable pub process_confirm : State N → Kind → List ℕ → List ℕ → List ℤ → Proc W (Unit {0})
  process_confirm s kind name label fds =
      elim (destination s (provider_of (find_component_by_name x s name))) [
        | none ↦ pure tt
        | some d ↦
            if is_served kind
            then (if not (is_neg (first fds))
                then k.send_confirm d.1.fd kind label (take 1 fds)
                else k.send_reject d.1.fd kind label)
            else pure tt
      ]

  unfoldable pub process_reject : State N → Kind → List ℕ → List ℕ → Proc W (Unit {0})
  process_reject s kind name label =
      elim (destination s (provider_of (find_component_by_name x s name))) [
        | none ↦ pure tt
        | some d ↦ k.send_reject d.1.fd kind label
      ]

  -- The component gets its end of the socket pair for the service.
  unfoldable pub register_from : State N → ℕ → Kind → Option (Component N) → Proc W (State N)
  unfolding setup_service put_service
  register_from s source kind none = pure s
  register_from s source kind (some c) = do
    (ready, entry) ← setup_service k s.epoll_fd (c.serv kind)
    let s' = put_service s source c kind entry
    if ready then k.send_confirm c.fd kind [] (entry.disp ∷ []) else k.send_reject c.fd kind []
    pure s'

  unfoldable pub process_register : State N → ℕ → Kind → Proc W (State N)
  unfolding register_from
  process_register s source kind = register_from s source kind (get_elem? s.components source)

  unfoldable pub handle_message :
      ℕ → State N → ℕ → Action → Kind → List ℕ → List ℕ → List ℤ → Proc W (Option (State N))
  unfolding process_request process_confirm process_reject process_register
  handle_message fuel s source request kind name label fds =
      if leb 256 (length label)
      then pure (some s)
      else process_request k x fuel s source kind label fds
  handle_message fuel s source confirm kind name label fds =
      if leb 256 (length name + length label)
      then pure (some s)
      else do process_confirm s kind name label fds; pure (some s)
  handle_message fuel s source reject kind name label fds =
      if leb 256 (length name + length label)
      then pure (some s)
      else do process_reject s kind name label; pure (some s)
  handle_message fuel s source register kind name label fds = do
    s' ← process_register s source kind
    pure (some s')

  -- The part of `Read_Message` that has a packet, or none that is valid.
  unfoldable pub handle_received :
      ℕ → State N → ℕ → Option BrokerMessage × List ℤ → Proc W (Option (State N))
  unfolding handle_message close_all
  handle_received fuel s source (none, fds) = do close_all k fds; pure (some s)
  handle_received fuel s source (some m, fds) =
      handle_message fuel s source m.action m.kind (contents m.name) (contents m.label) fds

  unfoldable pub read_message : ℕ → State N → ℕ → ℤ → Proc W (Option (State N))
  unfolding handle_received
  read_message fuel s source filedesc = k.receive filedesc >>= handle_received fuel s source
