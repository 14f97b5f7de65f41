-- ===== src/Linux/Broker/Handlers.antt =====
-- The broker's handlers: Read_Message, Handle_Message and the Process_ procedures of
-- src/core/linux/gneiss-broker-message.adb. Each gives the broker's next state. An index that is
-- not in the table of components, which callers exclude, changes nothing.
pub mod Replies
pub mod Serving
pub mod Invariant
use ada_interfaces.Base.{
  ℕ, ◌+◌, Bool, true, false, not, ◌&&◌, ◌||◌, Option, none, some, List, [], ◌∷◌, length, set, take,
  get_elem?, ltb, leb, if◌then◌else◌, ℤ, is_neg, Proc, pure, ◌>>=◌, ◌>>◌,
}
use ada_interfaces.Linux.Packet.Format.{
  Action, Kind, request, confirm, reject, register, message, log, memory, rom, timer,
}
use ada_interfaces.Linux.Packet.{BrokerMessage, contents}
use ada_interfaces.Linux.Client.{same_kind}
use ada_interfaces.Linux.Broker.State.{Service, Component, State}
use ada_interfaces.Linux.Broker.Lookup.{
  Answer, found, Xml, attr_name, match_service, find_component_by_name,
}
use ada_interfaces.Linux.Broker.Requests.{
  Calls, Provider, missing, itself, component, first, setup_service, process_message_request,
  process_memory_request, process_timer_request, process_rom_request, close_all, lookup_request,
}

module _ {N : Type 0} where
  abbrev pub put_entry : Kind → Service → Component N → Component N
  put_entry kind v c = record c { serv = λ q. if same_kind q kind then v else c.serv q }

  -- `State.Components (I).Serv (Kind) := ...`
  unfoldable pub put_service : State N → ℕ → Component N → Kind → Service → State N
  put_service s i c kind v = record s { components = set s.components i (put_entry kind v c) }

  abbrev pub numbered : ℕ → Option (Component N) → Option (ℕ × Component N)
  numbered i none = none
  numbered i (some c) = some (i, c)

  -- A provider in the table of components.
  abbrev pub destination : State N → Provider → Option (ℕ × Component N)
  destination s (component i) = numbered i (get_elem? s.components i)
  destination s _ = none

abbrev pub provider_of : Option ℕ → Provider
provider_of none = missing
provider_of (some i) = component i

-- The kinds whose sessions other components serve.
abbrev pub is_served : Kind → Bool
is_served rom = false
is_served timer = false
is_served _ = true

module _ {W N : Type 0} (k : Calls W) (x : Xml N) where
  abbrev rejected : State N → ℤ → Kind → List ℕ → Proc W (State N)
  rejected s fd kind label = do k.send_reject fd kind label; pure s

  -- The end of a request that a component serves: the descriptors `granted`, of which the first
  -- `n` go to the service.
  unfoldable pub forward :
      State N → ℕ × Component N → ℤ → Kind → List ℕ → List ℕ → ℕ → List ℤ → Proc W (State N)
  unfolding setup_service close_all put_service
  forward s (i, c) source kind name label n granted = do
    (ready, entry) ← setup_service k s.epoll_fd (c.serv kind)
    if ready
        then (do
          k.send_request entry.broker kind name label (take n granted)
          pure (put_service s i c kind entry))
        else do close_all k granted; rejected (put_service s i c kind entry) source kind label

  -- The end of a request that the broker serves itself.
  unfoldable pub answer : State N → ℤ → Kind → List ℕ → Bool × List ℤ → Proc W (State N)
  answer s source kind label (granted, fds) =
      if granted
      then (do k.send_confirm source kind label (take 1 fds); pure s)
      else rejected s source kind label

  -- Message and log sessions. The destination is `none` when it is not in the table.
  unfoldable pub serve_message :
      State N → ℤ → Kind → List ℕ → List ℕ → Option (ℕ × Component N) → Proc W (State N)
  unfolding forward process_message_request
  serve_message s source kind name label none = rejected s source kind label
  serve_message s source kind name label (some d) = do
    (granted, fds) ← process_message_request k
    if granted then forward s d source kind name label 2 fds else rejected s source kind label

  unfoldable pub serve_memory :
      State N → ℤ → Kind → List ℕ → List ℕ → List ℤ → Option (ℕ × Component N) → Proc W (State N)
  unfolding forward process_memory_request
  serve_memory s source kind name label fds none = rejected s source kind label
  serve_memory s source kind name label fds (some d) =
      if leb 1 (length fds)
      then (do
        (granted, out) ← process_memory_request k fds
        if granted then forward s d source kind name label 3 out else rejected s source kind label)
      else rejected s source kind label

  -- A component that serves ROM sessions gets no request, and the source no answer.
  unfoldable pub serve_rom :
      State N → ℤ → Kind → List ℕ → N → Option (ℕ × Component N) → Proc W (State N)
  unfolding answer process_rom_request
  serve_rom s source kind label service (some d) = pure s
  serve_rom s source kind label service none =
      process_rom_request k x s service >>= answer s source kind label

  unfoldable pub serve_timer : State N → ℤ → Kind → List ℕ → Proc W (State N)
  unfolding answer process_timer_request
  serve_timer s source kind label = process_timer_request k >>= answer s source kind label

  abbrev pub serve_kind :
      State N
      → ℤ
      → Kind
      → List ℕ
      → List ℕ
      → List ℤ
      → N
      → Option (ℕ × Component N)
      → Proc W (State N)
  serve_kind s source message name label fds service d = serve_message s source message name label d
  serve_kind s source log name label fds service d = serve_message s source log name label d
  serve_kind s source rom name label fds service d = serve_rom s source rom label service d
  serve_kind s source memory name label fds service d =
      serve_memory s source memory name label fds d
  serve_kind s source timer name label fds service d = serve_timer s source timer label

  abbrev pub serve_named :
      State N
      → Component N
      → Kind
      → List ℕ
      → List ℤ
      → N
      → Option (ℕ × Component N)
      → Answer
      → Proc W (State N)
  serve_named s c kind label fds service d (found name) =
      serve_kind s c.fd kind name label fds service d
  serve_named s c kind label fds service d _ = rejected s c.fd kind label

  -- From the choice of a service on: its provider, then the name of the source.
  unfoldable pub serve_provider :
      State N → Component N → Kind → List ℕ → List ℤ → N → Provider → Proc W (State N)
  unfolding serve_message serve_memory serve_rom serve_timer
  serve_provider s c kind label fds service missing = rejected s c.fd kind label
  serve_provider s c kind label fds service provider =
      serve_named s c kind label fds service (destination s provider) (x.attribute c.node attr_name)

  unfoldable pub serve_matched :
      State N → Component N → Kind → List ℕ → List ℤ → N → Proc W (State N)
  unfolding serve_provider lookup_request
  serve_matched s c kind label fds service =
      if x.is_invalid service || not (x.is_open service)
      then rejected s c.fd kind label
      else serve_provider s c kind label fds service (lookup_request k x s service)

  -- `none` is for a loop over the services that ran out of fuel.
  abbrev pub request_matched :
      State N → Component N → Kind → List ℕ → List ℤ → Option N → Proc W (Option (State N))
  request_matched s c kind label fds none = pure none
  request_matched s c kind label fds (some service) = do
    s' ← serve_matched s c kind label fds service
    pure (some s')

  abbrev pub request_from :
      ℕ → State N → Kind → List ℕ → List ℤ → Option (Component N) → Proc W (Option (State N))
  request_from fuel s kind label fds none = pure (some s)
  request_from fuel s kind label fds (some c) =
      if is_neg c.fd
      then pure (some s)
      else request_matched s c kind label fds (match_service x fuel c.node kind label)

  unfoldable pub process_request :
      ℕ → State N → ℕ → Kind → List ℕ → List ℤ → Proc W (Option (State N))
  unfolding serve_matched
  process_request fuel s source kind label fds =
      request_from fuel s kind label fds (get_elem? s.components source)
