-- ===== src/Linux/Broker/Messages/Soundness.antt =====
-- Whatever packets arrive, the broker goes on with a sound table of services.
use ada_interfaces.Base.{
  ℕ, ◌+◌, ◌≡◌, ◌<◌, refl, subst, not, ◌||◌, Bool-cases, inl, inr, Option, none, some, List, [], ◌∷◌,
  length, get_elem?, leb, ℤ, is_neg, Proc,
}
use ada_interfaces.Linux.Packet.Format.{
  Action, Kind, message, log, memory, rom, timer, request, confirm, reject, register,
}
use ada_interfaces.Linux.Packet.{BrokerMessage, contents}
use ada_interfaces.Linux.Broker.State.{Component, State}
use ada_interfaces.Linux.Broker.Lookup.{Answer, found, not_found, failed, Xml, attr_name}
use ada_interfaces.Linux.Broker.Requests.{
  Calls, Provider, missing, itself, component, process_timer_request, process_rom_request,
  lookup_request,
}
use ada_interfaces.Linux.Broker.Handlers.{
  destination, serve_kind, serve_rom, serve_timer, serve_named, serve_provider, serve_matched,
  request_from, process_request,
}
use ada_interfaces.Linux.Broker.Messages.{
  process_register, register_from, handle_message, handle_received, read_message,
}
use ada_interfaces.Linux.Broker.Lookup.Match.{XmlLaws, match_service-IsChoice}
use ada_interfaces.Linux.Broker.Handlers.Invariant.{
  IsSound, CloseLaws, get_elem-IsPaired, put_service-IsSound, setup_service-IsPaired,
  answer-IsSound, serve_message-IsSound, serve_memory-IsSound,
}

module _ {W N : Type 0} (k : Calls W) (t : CloseLaws k) (x : Xml N) where
  serve_kind-IsSound :
      (s : State N) (source : ℤ) (kind : Kind) (name label : List ℕ) (fds : List ℤ) (service : N)
      (p : Provider) (d : Option (ℕ × Component N)) (w : W)
      → IsSound s
      → destination s p ≡ d
      → IsSound (serve_kind k x s source kind name label fds service d w).0
  unfolding serve_rom serve_timer
  serve_kind-IsSound s source message name label fds service p d w a e =
      serve_message-IsSound k t x s source message name label p d w a e
  serve_kind-IsSound s source log name label fds service p d w a e =
      serve_message-IsSound k t x s source log name label p d w a e
  serve_kind-IsSound s source memory name label fds service p d w a e =
      serve_memory-IsSound k t x s source memory name label fds p d w a e
  serve_kind-IsSound s source rom name label fds service p none w a e =
      answer-IsSound k t x s source rom label (process_rom_request k x s service w).0 _ a
  serve_kind-IsSound s source rom name label fds service p (some d) w a e = a
  serve_kind-IsSound s source timer name label fds service p d w a e =
      answer-IsSound k t x s source timer label (process_timer_request k w).0 _ a

  serve_named-IsSound :
      (s : State N) (c : Component N) (kind : Kind) (label : List ℕ) (fds : List ℤ) (service : N)
      (p : Provider) (answer : Answer) (w : W)
      → IsSound s
      → IsSound (serve_named k x s c kind label fds service (destination s p) answer w).0
  serve_named-IsSound s c kind label fds service p (found name) w a =
      serve_kind-IsSound s c.fd kind name label fds service p (destination s p) w a refl
  serve_named-IsSound s c kind label fds service p not_found w a = a
  serve_named-IsSound s c kind label fds service p failed w a = a

  serve_provider-IsSound :
      (s : State N) (c : Component N) (kind : Kind) (label : List ℕ) (fds : List ℤ) (service : N)
      (p : Provider) (w : W)
      → IsSound s
      → IsSound (serve_provider k x s c kind label fds service p w).0
  unfolding serve_provider
  serve_provider-IsSound s c kind label fds service missing w a = a
  serve_provider-IsSound s c kind label fds service itself w a =
      serve_named-IsSound s c kind label fds service itself (x.attribute c.node attr_name) w a
  serve_provider-IsSound s c kind label fds service (component i) w a =
      serve_named-IsSound s c kind label fds service (component i) (x.attribute c.node attr_name) w
        a

  serve_matched-IsSound :
      (s : State N) (c : Component N) (kind : Kind) (label : List ℕ) (fds : List ℤ) (service : N)
      (w : W)
      → IsSound s
      → IsSound (serve_matched k x s c kind label fds service w).0
  unfolding serve_matched
  serve_matched-IsSound s c kind label fds service w a =
      elim (Bool-cases (x.is_invalid service || not (x.is_open service))) [
        | inl bad ↦ rw bad a
        | inr good ↦
            rw good
              (serve_provider-IsSound s c kind label fds service (lookup_request k x s service) w a)
      ]

  -- One `Read_Message` for every descriptor with an event, in their order.
  abbrev pub read_all : ℕ → List (ℕ × ℤ) → Option (State N) → Proc W (Option (State N))
  read_all fuel events none w = (none, w)
  read_all fuel [] (some s) w = (some s, w)
  read_all fuel ((source, filedesc) ∷ events) (some s) w =
      let r = read_message k x fuel s source filedesc w in read_all fuel events r.0 r.1

  -- The broker has a next state, and it is sound.
  abbrev pub GoesOn : Option (State N) → Type 0
  GoesOn r = (s' : State N) × (r ≡ some s') × IsSound s'

  module _ (l : XmlLaws x) (fuel : ℕ)
      (enough : (node : N) (kind : Kind) → length (l.services (x.child node) kind) < fuel) where
    request_from-GoesOn :
        (s : State N) (kind : Kind) (label : List ℕ) (fds : List ℤ) (c : Option (Component N))
        (w : W)
        → IsSound s
        → GoesOn (request_from k x fuel s kind label fds c w).0
    request_from-GoesOn s kind label fds none w a = (s, refl, a)
    request_from-GoesOn s kind label fds (some c) w a =
        let (service, matched, chosen) =
          match_service-IsChoice x l fuel c.node kind label (enough c.node kind) in
        elim (Bool-cases (is_neg c.fd)) [
          | inl unused ↦ rw unused (s, refl, a)
          | inr used ↦
              rw (used, matched) (_, refl, serve_matched-IsSound s c kind label fds service w a)
        ]

    register_from-IsSound :
        (s : State N) (i : ℕ) (kind : Kind) (c : Option (Component N)) (w : W)
        → IsSound s
        → get_elem? s.components i ≡ c
        → IsSound (register_from k x s i kind c w).0
    unfolding register_from
    register_from-IsSound s i kind none w a e = a
    register_from-IsSound s i kind (some c) w a e =
        put_service-IsSound s i c kind _ a (get_elem-IsPaired s.components i c a e)
          (setup_service-IsPaired k t s.epoll_fd (c.serv kind) w)

    handle_message-GoesOn :
        (s : State N) (source : ℕ) (action : Action) (kind : Kind) (name label : List ℕ)
        (fds : List ℤ) (w : W)
        → IsSound s
        → GoesOn (handle_message k x fuel s source action kind name label fds w).0
    unfolding handle_message process_request process_register
    handle_message-GoesOn s source request kind name label fds w a =
        elim (Bool-cases (leb 256 (length label))) [
          | inl long ↦ rw long (s, refl, a)
          | inr fits ↦
              rw fits (request_from-GoesOn s kind label fds (get_elem? s.components source) w a)
        ]
    handle_message-GoesOn s source confirm kind name label fds w a =
        elim (Bool-cases (leb 256 (length name + length label))) [
          | inl long ↦ rw long (s, refl, a)
          | inr fits ↦ rw fits (s, refl, a)
        ]
    handle_message-GoesOn s source reject kind name label fds w a =
        elim (Bool-cases (leb 256 (length name + length label))) [
          | inl long ↦ rw long (s, refl, a)
          | inr fits ↦ rw fits (s, refl, a)
        ]
    handle_message-GoesOn s source register kind name label fds w a =
        (_, refl, register_from-IsSound s source kind (get_elem? s.components source) w a refl)

    handle_received-GoesOn :
        (s : State N) (source : ℕ) (got : Option BrokerMessage × List ℤ) (w : W)
        → IsSound s
        → GoesOn (handle_received k x fuel s source got w).0
    unfolding handle_received
    handle_received-GoesOn s source (none, fds) w a = (s, refl, a)
    handle_received-GoesOn s source (some m, fds) w a =
        handle_message-GoesOn s source m.action m.kind (contents m.name) (contents m.label) fds w a

    read_all_more :
        (events : List (ℕ × ℤ)) (r : Option (State N) × W)
        → GoesOn r.0
        → ((s : State N) (w : W) → IsSound s → GoesOn (read_all fuel events (some s) w).0)
        → GoesOn (read_all fuel events r.0 r.1).0
    read_all_more events (none, w) (s', e, a) rest = cc
    read_all_more events (some s, w) (s', e, a) rest =
        let same : s' ≡ s = cc in rest s w (subst IsSound same a)

    -- From a table in which every socket pair for a service has both of its ends or neither:
    -- whatever packets arrive, in whatever order and from whichever components, valid ones or not,
    -- the broker goes on from one to the next, if the fuel is more than a component has services
    -- of a kind, and the table stays as described.
    pub read_all-GoesOn :
        (events : List (ℕ × ℤ)) (s : State N) (w : W)
        → IsSound s
        → GoesOn (read_all fuel events (some s) w).0
    unfolding read_message
    read_all-GoesOn [] s w a = (s, refl, a)
    read_all-GoesOn ((source, filedesc) ∷ events) s w a =
        let got = k.receive filedesc w in
        read_all_more events (read_message k x fuel s source filedesc w)
          (handle_received-GoesOn s source got.0 got.1 a) (read_all-GoesOn events)
