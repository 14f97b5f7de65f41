-- ===== src/Linux/Broker/Requests.antt =====
-- How the broker serves a packet: src/core/linux/gneiss-broker-message.adb, with Lookup_Request and
-- Find_Resource_Location of gneiss-broker-lookup.adb. Warnings and errors that are only printed
-- are left out.
use ada_interfaces.Base.{
  ℕ, Bool, true, false, not, ◌&&◌, ◌||◌, Option, none, some, List, [], ◌∷◌, if◌then◌else◌, ℤ,
  minus_one, is_neg, Proc, pure, ◌>>=◌,
}
use ada_interfaces.Linux.Packet.Format.{Kind}
use ada_interfaces.Linux.Packet.{BrokerMessage}
use ada_interfaces.Linux.Broker.State.{Service, State}
use ada_interfaces.Linux.Broker.Lookup.{
  found, Xml, attr_server, attr_resource, attr_type, attr_location, matches, find_component_by_name,
  find_resource,
}

-- What the broker calls: src/platform/linux/gneiss_internal-syscall.adb, gneiss_internal-epoll.adb
-- and its own Send_Request, Send_Confirm and Send_Reject. The latter tell their caller nothing: a
-- packet that the socket does not take is lost. They raise Constraint_Error, which nothing handles,
-- for a label of more than 255 characters, which neither a packet nor `Lookup_Name` has.
pub record Calls (W : Type 0) : Type 0 where
  pub socketpair : Proc W (ℤ × ℤ)
  pub close : ℤ → Proc W ℤ
  pub memfd_seal : ℤ → Proc W Bool
  pub openfile : List ℕ → Proc W ℤ
  pub timerfd_create : Proc W ℤ
  -- event queue, descriptor; its number is the index, too
  pub epoll_add : ℤ → ℤ → Proc W Bool
  pub send_request : ℤ → Kind → List ℕ → List ℕ → List ℤ → Proc W (Unit {0})
  pub send_confirm : ℤ → Kind → List ℕ → List ℤ → Proc W (Unit {0})
  pub send_reject : ℤ → Kind → List ℕ → Proc W (Unit {0})
  -- without waiting, with room for four descriptors
  pub receive : ℤ → Proc W (Option BrokerMessage × List ℤ)

abbrev pub valid : ℤ → Bool
valid fd = not (is_neg fd)

-- `Fds'First`, of an array that may be empty.
abbrev pub first : List ℤ → ℤ
first [] = minus_one
first (fd ∷ fds) = fd

-- Where a request goes: nowhere, to the broker itself, or to a component.
pub data Provider : Type 0 where
  missing itself : Provider
  component : ℕ → Provider

module _ {W : Type 0} (k : Calls W) where
  -- Close both ends; what is left in the variables.
  abbrev close_both : ℤ → ℤ → Proc W (ℤ × ℤ)
  close_both a b = do a' ← k.close a; b' ← k.close b; pure (a', b')

  -- For the entry of one kind.
  unfoldable pub setup_service : ℤ → Service → Proc W (Bool × Service)
  setup_service efd s = if valid s.broker && valid s.disp then pure (true, s) else do
    (broker, disp) ← k.socketpair
    if not (valid broker) || not (valid disp)
        then (do (a, b) ← close_both broker disp; pure (false, record { broker = a; disp = b }))
        else do
          added ← k.epoll_add efd broker
          if added
              then pure (true, record { broker = broker; disp = disp })
              else do (a, b) ← close_both broker disp; pure (false, record { broker = a; disp = b })

  -- The results are `Valid` and the four descriptors of `Fds_Out`.
  unfoldable pub process_message_request : Proc W (Bool × List ℤ)
  process_message_request = do
    (a, b) ← k.socketpair
    if valid a && valid b
        then pure (true, a ∷ b ∷ minus_one ∷ minus_one ∷ [])
        else do (a', b') ← close_both a b; pure (false, a' ∷ b' ∷ minus_one ∷ minus_one ∷ [])

  unfoldable pub process_memory_request : List ℤ → Proc W (Bool × List ℤ)
  process_memory_request fds =
      if not (valid (first fds))
      then pure (false, minus_one ∷ minus_one ∷ minus_one ∷ minus_one ∷ [])
      else do
        sealed ← k.memfd_seal (first fds)
        if sealed
            then (do
              (a, b) ← k.socketpair
              if valid a && valid b then pure (true, a ∷ b ∷ first fds ∷ minus_one ∷ []) else do
                (a', b') ← close_both a b
                c' ← k.close (first fds)
                pure (false, a' ∷ b' ∷ c' ∷ minus_one ∷ []))
            else do
              c' ← k.close (first fds)
              pure (false, minus_one ∷ minus_one ∷ c' ∷ minus_one ∷ [])

  unfoldable pub process_timer_request : Proc W (Bool × List ℤ)
  process_timer_request = do
    fd ← k.timerfd_create
    pure (valid fd, fd ∷ minus_one ∷ minus_one ∷ minus_one ∷ [])

  -- The end of `Process_Rom_Request`, after the lookup.
  abbrev pub open_location : Option (List ℕ) → Proc W (Bool × List ℤ)
  open_location none = pure (false, minus_one ∷ minus_one ∷ minus_one ∷ minus_one ∷ [])
  open_location (some path) = do
    fd ← k.openfile path
    pure (valid fd, fd ∷ minus_one ∷ minus_one ∷ minus_one ∷ [])

  -- `for Fd of Fds_Out loop Close (Fd); end loop;`
  unfoldable pub close_all : List ℤ → Proc W (Unit {0})
  close_all [] = pure tt
  close_all (fd ∷ fds) = do fd' ← k.close fd; close_all fds

  module _ {N : Type 0} (x : Xml N) where
    unfoldable pub lookup_request : State N → N → Provider
    lookup_request s service = elim (x.attribute service attr_server) [
      | found name ↦ elim (find_component_by_name x s name) [
        | none ↦ missing
        | some i ↦ component i
      ]
      | _ ↦ itself
    ]

    -- The path of a file, if the service names a resource that is one.
    unfoldable pub find_resource_location : State N → N → Option (List ℕ)
    unfolding find_resource
    find_resource_location s service = elim (x.attribute service attr_resource) [
      | found name ↦ elim (find_resource x s.resources name) [
        | some r ↦
            if matches (x.attribute r attr_type) (70 ∷ 105 ∷ 108 ∷ 101 ∷ [])
            then elim (x.attribute r attr_location) [ found path ↦ some path | _ ↦ none ]
            else none
        | none ↦ none
      ]
      | _ ↦ none
    ]

    unfoldable pub process_rom_request : State N → N → Proc W (Bool × List ℤ)
    unfolding find_resource_location
    process_rom_request s service = open_location (find_resource_location s service)
