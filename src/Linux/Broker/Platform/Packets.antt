-- ===== src/Linux/Broker/Platform/Packets.antt =====
-- The packet that a request to the broker ends in on Linux: Process_Request over Platform.
use ada_interfaces.Base.{
  ℕ, ◌≡◌, ◌≢◌, ◌≤◌, ◌<◌, ◌⊎◌, refl, ◌∙◌, true, false, inl, inr, some, none, List, [], length, map,
  length-map, get_elem?, ℤ, is_neg,
}
use ada_interfaces.Linux.Descriptor as Descriptor
use ada_interfaces.Linux.Memfile as Memfile
use ada_interfaces.Linux.Epoll as Epoll
use ada_interfaces.Linux.Socket as Socket
use ada_interfaces.Linux.Packet.Format.{Action, Kind, request, confirm, reject, rom}
use ada_interfaces.Linux.Packet.Interface as Interface
use ada_interfaces.Linux.Packet.{SessionLabel, blank_label}
use ada_interfaces.Linux.Client.{Stack, send}
use ada_interfaces.Linux.Broker.Requests.{valid}
use ada_interfaces.Linux.Broker.State.{Component, State}
use ada_interfaces.Linux.Broker.Lookup.{Xml, attr_name}
use ada_interfaces.Linux.Broker.Lookup.Match.{XmlLaws}
use ada_interfaces.Linux.Broker.Exchange.{label_of}
use ada_interfaces.Linux.Broker.Handlers.{is_served, process_request}
use ada_interfaces.Linux.Broker.Handlers.Replies.{
  Sent, to_service, confirmation, rejection, width, issue, IsReply,
}
use ada_interfaces.Linux.Broker.Handlers.Serving.{named, process_request-Served}
use ada_interfaces.Linux.Broker.Platform.{platform, pattern}
use ada_interfaces.Linux.Broker.Platform.Quiet.{QuietLaws, platform_laws, platform-sends}

-- What the packet is, by its action: to whom it goes, the name in it and its descriptors.
abbrev pub Means : ℤ → Kind → List ℕ → ℤ → Action → SessionLabel → List ℕ → Type 0
Means source kind name fd request n fds =
    (is_served kind ≡ true) × (valid fd ≡ true) × (n ≡ label_of name) × (length fds ≡ width kind)
Means source kind name fd confirm n fds =
    (is_served kind ≡ false) × (fd ≡ source) × (n ≡ blank_label) × (length fds ≡ 1)
Means source kind name fd reject n fds = (fd ≡ source) × (n ≡ blank_label) × (fds ≡ [])
Means source kind name fd _ n fds = ⊥

module _ {C W T : Type 0} (d : Descriptor.Calls W) (f : Memfile.Calls W) (e : Epoll.Calls W)
    (g : Interface.Calls C) (k : Socket.Calls W) (place : List ℕ → ℕ) (s : Stack) (sent : W → T)
    (q : QuietLaws d f e sent) where
  -- One packet for a session of `kind` with `label` goes to a socket between the two worlds, as
  -- the last call, in `v`.
  abbrev pub Ends : ℤ → Kind → List ℕ → List ℕ → W → W → Type 0
  Ends source kind name label w w' =
      (fd : ℤ) × (action : Action) × (n : SessionLabel) × (fds : List ℕ) × (v : W) × (sent v
        ≡ sent w)
      × (w' ≡ (send g k s fd action kind n (label_of label) fds v).1)
      × Means source kind name fd action n fds

  reply-Ends :
      (source : ℤ) (kind : Kind) (name label : List ℕ) (w v : W) (p : Sent)
      → length name ≤ 255
      → length label ≤ 255
      → sent v ≡ sent w
      → IsReply source kind name label p
      → Ends source kind name label w (issue (platform d f e g k place s) p v).1
  reply-Ends source kind name label w v (to_service fd kind' name' label' fds) short fits same r =
      let sends = platform-sends d f e g k place s fd kind name label fds v short fits in
      (
        fd,
        request,
        label_of name,
        map pattern fds,
        v,
        same,
        rw (r.0, r.1, r.2, sends.0) refl,
        (r.3, r.4, refl, length-map fds pattern ∙ r.5),
      )
  reply-Ends source kind name label w v (confirmation fd kind' label' fds) short fits same r =
      let sends = platform-sends d f e g k place s fd kind name label fds v short fits in
      (
        fd,
        confirm,
        blank_label,
        map pattern fds,
        v,
        same,
        rw (r.1, r.2, sends.1) refl,
        (r.3, r.0, refl, length-map fds pattern ∙ r.4),
      )
  reply-Ends source kind name label w v (rejection fd kind' label') short fits same r =
      let sends = platform-sends d f e g k place s fd kind name label [] v short fits in
      (fd, reject, blank_label, [], v, same, rw (r.1, r.2, sends.2) refl, (r.0, refl, refl))

  -- On Linux Process_Request of the broker, on a request from a component in use, ends in one
  -- packet that it hands to the socket, which may not take it, and hands over none before, with any
  -- fuel above the number of services that the configuration has for the component and the kind: a
  -- request of the same kind and label with the name of the component, to a valid socket, with two
  -- descriptors, three for memory, for a session that another component serves; a confirmation to
  -- the source, with one descriptor, for a ROM or a timer; or a rejection to the source without
  -- descriptors. Only for a ROM session it may be that nothing happens. The name and the label have
  -- at most 255 characters, and the system calls that Platform makes, but for sendmsg, are assumed
  -- to leave alone what is observed of the packets.
  pub process_request-send :
      {N : Type 0} (x : Xml N) (l : XmlLaws x) (fuel : ℕ) (b : State N) (source : ℕ) (kind : Kind)
      (label : List ℕ) (fds : List ℤ) (w : W) (c : Component N)
      → get_elem? b.components source ≡ some c
      → is_neg c.fd ≡ false
      → length (l.services (x.child c.node) kind) < fuel
      → length (named (x.attribute c.node attr_name)) ≤ 255
      → length label ≤ 255
      → let name = named (x.attribute c.node attr_name) in
        let r = process_request (platform d f e g k place s) x fuel b source kind label fds w in
        (r.0 ≢ none) × (Ends c.fd kind name label w r.1 ⊎ ((kind ≡ rom) × (r.1 ≡ w)))
  unfolding platform_laws
  process_request-send x l fuel b source kind label fds w c at_source in_use enough short fits =
      let name = named (x.attribute c.node attr_name) in
      let (goes_on, served) =
        process_request-Served (platform d f e g k place s) x
          (platform_laws d f e sent q g k place s) l fuel b source kind label fds w c at_source
          in_use enough in
      (
        goes_on,
        elim served [
          | inl (p, v, same, call, r) ↦
              inl (rw call (reply-Ends c.fd kind name label w v p short fits same r))
          | inr nothing ↦ inr nothing
        ],
      )
