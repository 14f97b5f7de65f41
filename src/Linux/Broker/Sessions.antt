-- ===== src/Linux/Broker/Sessions.antt =====
-- The exchange for a session: a component's Initialize, and a broker that reads the request at the
-- other end and answers it.
use ada_interfaces.Base.{
  ℕ, ◌≤◌, ◌<◌, ◌≡◌, ◌≢◌, refl, sym, ap, ◌∙◌, true, some, List, [], ◌∷◌, length, map, subst,
  get_elem?, ℤ, length-map,
}
use ada_interfaces.Linux.Socket as Socket
use ada_interfaces.Linux.Socket.{no_fd}
use ada_interfaces.Linux.Socket.Words.{AreWords}
use ada_interfaces.Linux.Socket.Laws.{SocketLaws, PairLaws, packet}
use ada_interfaces.Linux.Packet.Format.{Action, Kind, Packet, kind_code, encode}
use ada_interfaces.Linux.Packet.Format as Format
use ada_interfaces.Linux.Packet.Interface.{Calls, PacketLaws}
use ada_interfaces.Linux.Packet.{blank_label}
use ada_interfaces.Linux.Packet.Written.{packet_of}
use ada_interfaces.Linux.Packet.Parsed.{Reports}
use ada_interfaces.Linux.Packet.Delivery.{Accepted, map-ne-nil}
use ada_interfaces.Linux.Client.{Stack, valid_prefix, receive, initialize}
use ada_interfaces.Linux.Broker.{send_confirm}
use ada_interfaces.Linux.Broker.Exchange.{label_of, IsStack, send_confirm_lem, send_reject_lem}
use ada_interfaces.Linux.Broker.Answer.{
  request_of, asked, served, confirms, rejects, answer_waits, initialize-answered, receive_files,
  receive_no_fd,
}

module _ {C W : Type 0} (g : Calls C) (k : Socket.Calls W) (l : PacketLaws g) (t : SocketLaws k)
    (q : PairLaws k t) where
  -- Over an idle pair whose kernel takes both packets, with labels of at most 255 characters: the
  -- broker reads the request for a session as it was meant, and when it confirms the session with
  -- at least one descriptor, as many as the component's array has, Initialize returns an array
  -- that stands for the same open files.
  pub initialize-send_confirm :
      (s b : Stack) (fd : ℤ) (kind : Kind) (fds label slots : List ℕ) (w : W)
      (label' granted : List ℕ)
      → IsStack s
      → IsStack b
      → length label ≤ 255
      → length label' ≤ 255
      → AreWords (valid_prefix fds)
      → AreWords granted
      → granted ≢ []
      → length granted ≡ length fds
      → t.pending fd w ≡ []
      → t.pending (t.peer fd) w ≡ []
      → Accepted g k l t s.outgoing fd Format.request kind blank_label
          (label_of label)
          (valid_prefix fds)
          w
      → let r = served g k l t q b fd slots (asked g k l t q s fd kind fds label w) in
        Accepted g k l t b.outgoing
          (t.peer fd)
          Format.confirm
          kind
          blank_label
          (label_of label')
          granted
          r.1
        → let i =
            initialize g k s
              (confirms g k l t q b fd slots kind label' granted)
              fd
              kind
              fds
              label
              w in
          Reports r.0.0 (request_of kind label)
          × ((out : List ℕ) × (i.0 ≡ some out)
              × (map (λ n. t.file fd n i.1) out ≡ map (λ n. t.file (t.peer fd) n r.1) granted))
  initialize-send_confirm s b fd kind fds label slots w label' granted rs rb fits fits' a ag ne room
        idle idle' sent answered =
      let (seen, reply) =
        answer_waits g k l t q s b fd kind fds label slots w Format.confirm label' granted rs rb
          fits fits' a ag idle idle' sent answered in
      let r = served g k l t q b fd slots (asked g k l t q s fd kind fds label w) in
      let confirmed = send_confirm_lem g k b (t.peer fd) kind label' granted r.1 fits' in
      let granted_files = map (λ n. t.file (t.peer fd) n r.1) granted in
      let answer =
        packet (encode (packet_of Format.confirm kind blank_label (label_of label')))
          granted_files in
      let waits = subst (λ x. t.pending fd x.1 ≡ answer ∷ []) (sym confirmed) reply in
      let got =
        receive g k s fd fds true (send_confirm g k b (t.peer fd) kind label' granted r.1).1 in
      let returns =
        initialize-answered g k l t q s (confirms g k l t q b fd slots kind label' granted) fd kind
          fds label w Format.confirm label' granted_files rs fits fits' waits in
      let files =
        receive_files g k l t q s fd fds true _ answer waits
          (map-ne-nil (λ n. t.file (t.peer fd) n r.1) granted ne)
          (length-map granted (λ n. t.file (t.peer fd) n r.1) ∙ room) in
      (
        seen,
        (
          got.0.1,
          ap (λ x. x.0) returns,
          subst (λ x. map (λ n. t.file fd n x.1) got.0.1 ≡ granted_files) (sym returns) files,
        ),
      )

  -- Over an idle pair whose kernel takes both packets, with labels of at most 255 characters: when
  -- the broker rejects a request, Initialize returns an array with -1 in every place.
  pub initialize-send_reject :
      (s b : Stack) (fd : ℤ) (kind : Kind) (fds label slots : List ℕ) (w : W) (label' : List ℕ)
      → IsStack s
      → IsStack b
      → length label ≤ 255
      → length label' ≤ 255
      → AreWords (valid_prefix fds)
      → t.pending fd w ≡ []
      → t.pending (t.peer fd) w ≡ []
      → Accepted g k l t s.outgoing fd Format.request kind blank_label
          (label_of label)
          (valid_prefix fds)
          w
      → let r = served g k l t q b fd slots (asked g k l t q s fd kind fds label w) in
        Accepted g k l t b.outgoing
          (t.peer fd)
          Format.reject
          kind
          blank_label
          (label_of label')
          []
          r.1
        → let i = initialize g k s (rejects g k l t q b fd slots kind label') fd kind fds label w in
          (out : List ℕ) × (i.0 ≡ some out)
          × ((i : ℕ) → i < length fds → get_elem? out i ≡ some no_fd)
  initialize-send_reject s b fd kind fds label slots w label' rs rb fits fits' a idle idle' sent
        answered =
      let (seen, reply) =
        answer_waits g k l t q s b fd kind fds label slots w Format.reject label' [] rs rb fits
          fits' a tt idle idle' sent answered in
      let r = served g k l t q b fd slots (asked g k l t q s fd kind fds label w) in
      let rejected = send_reject_lem g k b (t.peer fd) kind label' r.1 fits' in
      let answer =
        packet (encode (packet_of Format.reject kind blank_label (label_of label'))) [] in
      let waits = subst (λ x. t.pending fd x.1 ≡ answer ∷ []) (sym rejected) reply in
      let returns =
        initialize-answered g k l t q s (rejects g k l t q b fd slots kind label') fd kind fds label
          w Format.reject label' [] rs fits fits' waits in
      (_, ap (λ x. x.0) returns, receive_no_fd g k l t q s fd fds true _ answer waits refl)
