-- ===== src/Linux/Broker/Handlers/Serving.antt =====
-- Every request is answered once: Process_Request of src/core/linux/gneiss-broker-message.adb.
use ada_interfaces.Base.{
  ℕ, ◌≡◌, ◌≢◌, ◌<◌, ◌⊎◌, refl, ◌∙◌, Bool, true, false, not, ◌||◌, Bool-cases, inl, inr, Option,
  none, some, List, [], ◌∷◌, length, take, get_elem?, leb, ℤ, is_neg, arith,
}
use ada_interfaces.Linux.Packet.Format.{Kind, message, log, memory, rom, timer}
use ada_interfaces.Linux.Broker.State.{Component, State}
use ada_interfaces.Linux.Broker.Lookup.{Answer, found, not_found, failed, Xml, attr_name}
use ada_interfaces.Linux.Broker.Lookup.Match.{XmlLaws, match_service-IsChoice}
use ada_interfaces.Linux.Broker.Requests.{
  Calls, Provider, missing, itself, component, setup_service, process_message_request,
  process_memory_request, process_timer_request, process_rom_request, lookup_request,
}
use ada_interfaces.Linux.Broker.Handlers.{
  is_served, destination, forward, answer, rejected, serve_kind, serve_message, serve_memory,
  serve_rom, serve_timer, serve_named, serve_provider, serve_matched, process_request,
}
use ada_interfaces.Linux.Broker.Handlers.Replies.{
  Sent, to_service, confirmation, rejection, width, IsReply, issue, BrokerLaws, Grants,
  close_all-sent, setup_service-valid, process_message_request-Grants,
  process_memory_request-Grants, process_timer_request-Grants, process_rom_request-Grants,
}

-- The name in an attribute, if there is one.
abbrev pub named : Answer → List ℕ
named (found name) = name
named _ = []

module _ {W N T : Type 0} (k : Calls W) (x : Xml N) (t : BrokerLaws T k) where
  -- Between the two worlds the broker makes one call that sends, which settles the request, and
  -- nothing after it: before the call, in `v`, no packet has been sent.
  abbrev pub Settles : ℤ → Kind → List ℕ → List ℕ → W → W → Type 0
  Settles source kind name label w w' =
      (p : Sent) × (v : W) × (t.sent v ≡ t.sent w)
      × (w' ≡ (issue k p v).1)
      × IsReply source kind name label p

  rejects :
      (s : State N) (source : ℤ) (kind : Kind) (name label : List ℕ) (w w' : W)
      → t.sent w' ≡ t.sent w
      → Settles source kind name label w (rejected k x s source kind label w').1
  rejects s source kind name label w w' e =
      (rejection source kind label, w', e, refl, (refl, refl, refl))

  answer-Settles :
      (s : State N) (source : ℤ) (kind : Kind) (name label : List ℕ) (w : W)
      (r : (Bool × List ℤ) × W)
      → is_served kind ≡ false
      → Grants k t 1 w r
      → Settles source kind name label w (answer k x s source kind label r.0 r.1).1
  unfolding answer
  answer-Settles s source kind name label w r broker g = elim (Bool-cases r.0.0) [
    | inr refused ↦ rw refused (rejects s source kind name label w r.1 g.0)
    | inl granted ↦ rw granted (
      confirmation source kind label (take 1 r.0.1),
      r.1,
      g.0,
      refl,
      (refl, refl, refl, broker, (g.1 granted).0, (g.1 granted).1),
    )
  ]

  forward-Settles :
      (s : State N) (d : ℕ × Component N) (source : ℤ) (kind : Kind) (name label : List ℕ) (w : W)
      (n : ℕ) (r : (Bool × List ℤ) × W)
      → is_served kind ≡ true
      → n ≡ width kind
      → Grants k t n w r
      → r.0.0 ≡ true
      → Settles source kind name label w (forward k x s d source kind name label n r.0.1 r.1).1
  unfolding forward
  forward-Settles s (i, c) source kind name label w n r served e g granted =
      let ready = setup_service-valid k t s.epoll_fd (c.serv kind) r.1 in
      let set = setup_service k s.epoll_fd (c.serv kind) r.1 in
      let fds = take n r.0.1 in
      elim (Bool-cases set.0.0) [
        | inr bad ↦
            rw bad (
              rejects s source kind name label w _ (close_all-sent k t r.0.1 set.1 ∙ ready.0 ∙ g.0))
        | inl good ↦ rw good (
          to_service set.0.1.broker kind name label fds,
          set.1,
          ready.0 ∙ g.0,
          refl,
          (refl, refl, refl, served, ready.1 good, (g.1 granted).0 ∙ e, (g.1 granted).1),
        )
      ]

  serve_message-Settles :
      (s : State N) (source : ℤ) (kind : Kind) (name label : List ℕ) (d : Option (ℕ × Component N))
      (w : W)
      → is_served kind ≡ true
      → 2 ≡ width kind
      → Settles source kind name label w (serve_message k x s source kind name label d w).1
  unfolding serve_message
  serve_message-Settles s source kind name label none w served two =
      rejects s source kind name label w w refl
  serve_message-Settles s source kind name label (some d) w served two =
      let g = process_message_request-Grants k t w in
      elim (Bool-cases (process_message_request k w).0.0) [
        | inl granted ↦
            rw granted (forward-Settles s d source kind name label w 2 _ served two g granted)
        | inr refused ↦ rw refused (rejects s source kind name label w _ g.0)
      ]

  serve_memory-Settles :
      (s : State N) (source : ℤ) (name label : List ℕ) (fds : List ℤ) (d : Option (ℕ × Component N))
      (w : W)
      → Settles source memory name label w (serve_memory k x s source memory name label fds d w).1
  unfolding serve_memory
  serve_memory-Settles s source name label fds none w = rejects s source memory name label w w refl
  serve_memory-Settles s source name label [] (some d) w =
      rejects s source memory name label w w refl
  serve_memory-Settles s source name label (fd ∷ fds) (some d) w =
      let g = process_memory_request-Grants k t (fd ∷ fds) w in
      let some_fd : leb 1 (length (fd ∷ fds)) ≡ true = ground arith in
      elim (Bool-cases (process_memory_request k (fd ∷ fds) w).0.0) [
        | inl granted ↦
            rw (some_fd, granted)
              (forward-Settles s d source memory name label w 3 _ refl refl g granted)
        | inr refused ↦ rw (some_fd, refused) (rejects s source memory name label w _ g.0)
      ]

  -- The packet that settles a request, or none for a ROM session that a component serves.
  abbrev pub Served : ℤ → Kind → List ℕ → List ℕ → W → W → Type 0
  Served source kind name label w w' =
      Settles source kind name label w w' ⊎ ((kind ≡ rom) × (w' ≡ w))

  serve_kind-Served :
      (s : State N) (source : ℤ) (kind : Kind) (name label : List ℕ) (fds : List ℤ) (service : N)
      (d : Option (ℕ × Component N)) (w : W)
      → Served source kind name label w (serve_kind k x s source kind name label fds service d w).1
  unfolding serve_rom serve_timer
  serve_kind-Served s source message name label fds service d w =
      inl (serve_message-Settles s source message name label d w refl refl)
  serve_kind-Served s source log name label fds service d w =
      inl (serve_message-Settles s source log name label d w refl refl)
  serve_kind-Served s source memory name label fds service d w =
      inl (serve_memory-Settles s source name label fds d w)
  serve_kind-Served s source rom name label fds service none w = inl (
      answer-Settles s source rom name label w (process_rom_request k x s service w) refl
        (process_rom_request-Grants k t x s service w))
  serve_kind-Served s source rom name label fds service (some d) w = inr (refl, refl)
  serve_kind-Served s source timer name label fds service d w = inl (
      answer-Settles s source timer name label w (process_timer_request k w) refl
        (process_timer_request-Grants k t w))

  serve_named-Served :
      (s : State N) (c : Component N) (kind : Kind) (label : List ℕ) (fds : List ℤ) (service : N)
      (d : Option (ℕ × Component N)) (a : Answer) (w : W)
      → Served c.fd kind (named a) label w (serve_named k x s c kind label fds service d a w).1
  serve_named-Served s c kind label fds service d (found name) w =
      serve_kind-Served s c.fd kind name label fds service d w
  serve_named-Served s c kind label fds service d not_found w =
      inl (rejects s c.fd kind [] label w w refl)
  serve_named-Served s c kind label fds service d failed w =
      inl (rejects s c.fd kind [] label w w refl)

  serve_provider-Served :
      (s : State N) (c : Component N) (kind : Kind) (label : List ℕ) (fds : List ℤ) (service : N)
      (p : Provider) (w : W)
      → Served c.fd kind
          (named (x.attribute c.node attr_name))
          label
          w
          (serve_provider k x s c kind label fds service p w).1
  unfolding serve_provider
  serve_provider-Served s c kind label fds service missing w =
      inl (rejects s c.fd kind (named (x.attribute c.node attr_name)) label w w refl)
  serve_provider-Served s c kind label fds service itself w =
      serve_named-Served s c kind label fds service none (x.attribute c.node attr_name) w
  serve_provider-Served s c kind label fds service (component i) w =
      serve_named-Served s c kind label fds service (destination s (component i))
        (x.attribute c.node attr_name) w

  serve_matched-Served :
      (s : State N) (c : Component N) (kind : Kind) (label : List ℕ) (fds : List ℤ) (service : N)
      (w : W)
      → Served c.fd kind
          (named (x.attribute c.node attr_name))
          label
          w
          (serve_matched k x s c kind label fds service w).1
  unfolding serve_matched
  serve_matched-Served s c kind label fds service w =
      elim (Bool-cases (x.is_invalid service || not (x.is_open service))) [
        | inl bad ↦
            rw bad (inl (rejects s c.fd kind (named (x.attribute c.node attr_name)) label w w refl))
        | inr good ↦
            rw good
              (serve_provider-Served s c kind label fds service (lookup_request k x s service) w)
      ]

  -- On a request from a component in use, Process_Request calls exactly one of Send_Request,
  -- Send_Confirm and Send_Reject, once and as the last call, with any fuel above the number of
  -- services that the configuration has for the component and the kind. For a message, log or
  -- memory session that is a request of the same kind and label, with the name of the component, to
  -- a valid socket, with two valid
  -- descriptors, three for memory; for a ROM or a timer it is a confirmation to the source with
  -- one valid descriptor; for each kind it may be a rejection to the source. Only for a ROM session
  -- it may be that nothing is called at all. What the call then does, if the packet is too long or
  -- its socket takes none, is left open; all other calls of the broker are assumed to send nothing.
  pub process_request-Served :
      (l : XmlLaws x) (fuel : ℕ) (s : State N) (source : ℕ) (kind : Kind) (label : List ℕ)
      (fds : List ℤ) (w : W) (c : Component N)
      → get_elem? s.components source ≡ some c
      → is_neg c.fd ≡ false
      → length (l.services (x.child c.node) kind) < fuel
      → let r = process_request k x fuel s source kind label fds w in
        (r.0 ≢ none) × Served c.fd kind (named (x.attribute c.node attr_name)) label w r.1
  unfolding process_request
  process_request-Served l fuel s source kind label fds w c at_source in_use enough =
      let (service, matched, chosen) = match_service-IsChoice x l fuel c.node kind label enough in
      rw (at_source, in_use, matched) (λ e. cc, serve_matched-Served s c kind label fds service w)
