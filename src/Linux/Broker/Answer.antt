-- ===== src/Linux/Broker/Answer.antt =====
-- One packet over an idle direction, and the request and the answer of a session.
use ada_interfaces.Base.{
  ℕ, ◌≤◌, ◌<◌, ◌≡◌, ◌≢◌, refl, ap, ◌∙◌, Bool, true, false, Option, some, List, [], ◌∷◌, length, map,
  get_elem?, ℤ, Proc, arith,
}
use ada_interfaces.Linux.Socket as Socket
use ada_interfaces.Linux.Socket.{no_fd}
use ada_interfaces.Linux.Socket.Words.{AreWords}
use ada_interfaces.Linux.Socket.Laws.{SocketLaws, PairLaws, packet}
use ada_interfaces.Linux.Socket.Laws as Laws
use ada_interfaces.Linux.Packet.Format.{Action, Kind, Packet, kind_code, encode}
use ada_interfaces.Linux.Packet.Format as Format
use ada_interfaces.Linux.Packet.Interface.{Calls, PacketLaws}
use ada_interfaces.Linux.Packet.{BrokerMessage, blank_label}
use ada_interfaces.Linux.Packet.Fields.{blank_label-IsLabel}
use ada_interfaces.Linux.Packet.Written.{packet_of}
use ada_interfaces.Linux.Packet.Parsed.{Reports}
use ada_interfaces.Linux.Packet.Delivery.{
  Accepted, send-pending, receive-Reports, receive-files, receive-no_fd,
}
use ada_interfaces.Linux.Client.{Stack, valid_prefix, send, receive, initialize, is_answer}
use ada_interfaces.Linux.Client.Frame.{send_frame, receive_frame}
use ada_interfaces.Linux.Broker.{send_confirm, send_reject}
use ada_interfaces.Linux.Broker.Exchange.{
  label_of, IsStack, label_of-IsLabel, contents-label_of, initialize_lem,
}

answers_kind :
    (got : Option BrokerMessage) (p : Packet) → Reports got p → is_answer got p.kind ≡ true
answers_kind got p (m, e, a, c, n, b) = rw (e, c) (ground arith)

-- The request for a session of `kind` with `label`, and an answer to it.
abbrev pub request_of : Kind → List ℕ → Packet
request_of kind label = packet_of Format.request kind blank_label (label_of label)

module _ {C W : Type 0} (g : Calls C) (k : Socket.Calls W) (l : PacketLaws g) (t : SocketLaws k)
    (q : PairLaws k t) where
  -- `Send` of a packet over an idle direction.
  send_idle :
      (s : Stack) (fd : ℤ) (action : Action) (kind : Kind) (label fds : List ℕ) (w : W)
      → IsStack s
      → length label ≤ 255
      → AreWords fds
      → Accepted g k l t s.outgoing fd action kind blank_label (label_of label) fds w
      → t.pending (t.peer fd) w ≡ []
      → t.pending (t.peer fd) (send g k s fd action kind blank_label (label_of label) fds w).1
        ≡ packet
            (encode (packet_of action kind blank_label (label_of label)))
            (map (λ n. t.file fd n w) fds)
          ∷ []
  unfolding send
  send_idle s fd action kind label fds w room fits a sent idle =
      let waits =
        send-pending g k l t s.outgoing fd action kind blank_label (label_of label) fds w room.0
          blank_label-IsLabel (label_of-IsLabel label fits) a sent in
      rw idle at waits

  receive_waiting :
      (s : Stack) (fd : ℤ) (fds : List ℕ) (block : Bool) (action : Action) (kind : Kind)
      (label : List ℕ) (files : List ℕ) (w : W)
      → IsStack s
      → length label ≤ 255
      → t.pending fd w
        ≡ packet (encode (packet_of action kind blank_label (label_of label))) files ∷ []
      → let r = receive g k s fd fds block w in
        Reports r.0.0 (packet_of action kind blank_label (label_of label)) × (t.pending fd r.1 ≡ [])
  unfolding receive
  receive_waiting s fd fds block action kind label files w room fits waits =
      receive-Reports g k l t s.incoming fd fds s.trunc block s.control w
        (packet_of action kind blank_label (label_of label)) files [] room.1 (omega arith)
        (omega (arith, ap length (contents-label_of label))) waits

  pub receive_files :
      (s : Stack) (fd : ℤ) (fds : List ℕ) (block : Bool) (w : W) (p : Laws.Packet)
      → t.pending fd w ≡ p ∷ []
      → p.files ≢ []
      → length p.files ≡ length fds
      → let r = receive g k s fd fds block w in map (λ n. t.file fd n r.1) r.0.1 ≡ p.files
  unfolding receive
  receive_files s fd fds block w p waits ne room =
      receive-files g k l t s.incoming fd fds s.trunc block s.control w p [] waits ne room

  pub receive_no_fd :
      (s : Stack) (fd : ℤ) (fds : List ℕ) (block : Bool) (w : W) (p : Laws.Packet)
      → t.pending fd w ≡ p ∷ []
      → p.files ≡ []
      → (i : ℕ) → i < length fds
      → get_elem? (receive g k s fd fds block w).0.1 i ≡ some no_fd
  unfolding receive
  receive_no_fd s fd fds block w p waits e i h =
      receive-no_fd g k l t s.incoming fd fds s.trunc block s.control w p [] waits e i h

  -- An answer of the same kind, whatever its action: Initialize returns what the read left in the
  -- array.
  pub initialize-answered :
      (s : Stack) (others : Proc W (Unit {0})) (fd : ℤ) (kind : Kind) (fds label : List ℕ) (w : W)
      (action : Action) (label' files : List ℕ)
      → IsStack s
      → length label ≤ 255
      → length label' ≤ 255
      → let w' =
          (send g k s fd Format.request kind blank_label (label_of label) (valid_prefix fds) w).1 in
        t.pending fd (others w').1
          ≡ packet (encode (packet_of action kind blank_label (label_of label'))) files ∷ []
        → let r = receive g k s fd fds true (others w').1 in
          initialize g k s others fd kind fds label w ≡ (some r.0.1, r.1)
  initialize-answered s others fd kind fds label w action label' files room fits fits' waits =
      let got = receive_waiting s fd fds true action kind label' files _ room fits' waits in
      let answered = answers_kind _ (packet_of action kind blank_label (label_of label')) got.0 in
      initialize_lem g k s others fd kind fds label w fits ∙ rw answered refl

  -- The world after a request, and what the broker reads at the other end.
  abbrev pub asked : Stack → ℤ → Kind → List ℕ → List ℕ → W → W
  asked s fd kind fds label w =
      (send g k s fd Format.request kind blank_label (label_of label) (valid_prefix fds) w).1

  abbrev pub served : Stack → ℤ → List ℕ → W → (Option BrokerMessage × List ℕ) × W
  served b fd slots w = receive g k b (t.peer fd) slots false w

  -- The broker's turn: it reads, and answers.
  abbrev pub confirms : Stack → ℤ → List ℕ → Kind → List ℕ → List ℕ → Proc W (Unit {0})
  confirms b fd slots kind label granted w =
      (tt, (send_confirm g k b (t.peer fd) kind label granted (served b fd slots w).1).1)

  abbrev pub rejects : Stack → ℤ → List ℕ → Kind → List ℕ → Proc W (Unit {0})
  rejects b fd slots kind label w =
      (tt, (send_reject g k b (t.peer fd) kind label (served b fd slots w).1).1)

  -- The broker reads the request as it was meant, and its answer is what waits for the component.
  pub answer_waits :
      (s b : Stack) (fd : ℤ) (kind : Kind) (fds label slots : List ℕ) (w : W) (action : Action)
      (label' granted : List ℕ)
      → IsStack s
      → IsStack b
      → length label ≤ 255
      → length label' ≤ 255
      → AreWords (valid_prefix fds)
      → AreWords granted
      → t.pending fd w ≡ []
      → t.pending (t.peer fd) w ≡ []
      → Accepted g k l t s.outgoing fd Format.request kind blank_label
          (label_of label)
          (valid_prefix fds)
          w
      → let r = served b fd slots (asked s fd kind fds label w) in
        Accepted g k l t b.outgoing
          (t.peer fd)
          action
          kind
          blank_label
          (label_of label')
          granted
          r.1
        → Reports r.0.0 (request_of kind label)
          × (t.pending fd
                (send g k b (t.peer fd) action kind blank_label (label_of label') granted r.1).1
              ≡ packet
                  (encode (packet_of action kind blank_label (label_of label')))
                  (map (λ n. t.file (t.peer fd) n r.1) granted)
                ∷ [])
  answer_waits s b fd kind fds label slots w action label' granted rs rb fits fits' a ag idle idle'
        sent answered =
      let waits =
        send_idle s fd Format.request kind label (valid_prefix fds) w rs fits a sent idle' in
      let got =
        receive_waiting b (t.peer fd) slots false Format.request kind label _ _ rb fits waits in
      let still =
        receive_frame g k t q b (t.peer fd) fd slots false (asked s fd kind fds label w)
          (q.peer_other fd)
        ∙ send_frame g k t q s fd fd Format.request kind blank_label (label_of label)
            (valid_prefix fds) w (q.peer_other fd)
        ∙ idle in
      let back = q.peer_peer fd in
      let reply =
        send_idle b (t.peer fd) action kind label' granted _ rb fits' ag answered (rw back still) in
      (got.0, rw back at reply)
