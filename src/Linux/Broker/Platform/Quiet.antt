-- ===== src/Linux/Broker/Platform/Quiet.antt =====
-- The broker's calls on Linux, as Platform puts them together: those that do not send, and those
-- that do.
use ada_interfaces.Base.{
  ℕ, ◌≡◌, ◌≤◌, refl, ◌∙◌, false, Bool-cases, inl, inr, List, [], length, map, ℤ, is_neg, is_nonzero,
}
use ada_interfaces.Linux.Descriptor as Descriptor
use ada_interfaces.Linux.Descriptor.{
  gneiss_socketpair, gneiss_close, gneiss_open, gneiss_timerfd_create,
}
use ada_interfaces.Linux.Memfile as Memfile
use ada_interfaces.Linux.Memfile.{gneiss_memfd_seal, seal_shrink, seal_grow, seal_seal}
use ada_interfaces.Linux.Epoll as Epoll
use ada_interfaces.Linux.Epoll.{gneiss_epoll_add_fd, gneiss_epoll_add}
use ada_interfaces.Linux.Socket as Socket
use ada_interfaces.Linux.Packet.Format.{Kind}
use ada_interfaces.Linux.Packet.Format as Format
use ada_interfaces.Linux.Packet.{blank_label}
use ada_interfaces.Linux.Packet.Interface as Interface
use ada_interfaces.Linux.Client.{Stack, send}
use ada_interfaces.Linux.Broker.Handlers.Replies.{BrokerLaws}
use ada_interfaces.Linux.Broker.Requests.{Calls}
use ada_interfaces.Linux.Broker.Exchange.{
  label_of, send_request_lem, send_confirm_lem, send_reject_lem,
}
use ada_interfaces.Linux.Broker.Platform.{platform, pattern}

-- `sent w` is what anyone learns of the packets in the sockets. No system call but sendmsg and
-- recvmsg changes it, and no report on stderr.
pub record QuietLaws {W T : Type 0} (d : Descriptor.Calls W) (f : Memfile.Calls W)
    (e : Epoll.Calls W) (sent : W → T) : Type 0 where
  pub socketpair_quiet : (w : W) → sent (d.socketpair w).1 ≡ sent w
  pub close_quiet : (fd : ℤ) (w : W) → sent (d.close fd w).1 ≡ sent w
  pub open_quiet :
      (path : ℕ) (a : Descriptor.Access) (w : W) → sent (d.openfile path a w).1 ≡ sent w
  pub timer_quiet : (w : W) → sent (d.timerfd_create w).1 ≡ sent w
  pub report_quiet : (r : Descriptor.Warning) (w : W) → sent (d.warn r w).1 ≡ sent w
  pub seals_quiet : (fd : ℤ) (s : Memfile.Seal) (w : W) → sent (f.add_seals fd s w).1 ≡ sent w
  pub seal_report_quiet : (r : Memfile.Warning) (w : W) → sent (f.warn r w).1 ≡ sent w
  pub add_quiet :
      (efd fd : ℤ) (events : ℕ) (p : Epoll.Priv) (w : W)
      → sent (e.epoll_ctl_add efd fd events p w).1 ≡ sent w
  pub add_report_quiet : (r : Epoll.Warning) (w : W) → sent (e.warn r w).1 ≡ sent w

module _ {W T : Type 0} (d : Descriptor.Calls W) (f : Memfile.Calls W) (e : Epoll.Calls W)
    (sent : W → T) (q : QuietLaws d f e sent) where
  pub socketpair_same : (w : W) → sent (gneiss_socketpair d w).1 ≡ sent w
  unfolding gneiss_socketpair
  socketpair_same w = elim (Bool-cases (is_neg (d.socketpair w).0.0)) [
    | inl bad ↦ rw bad (q.report_quiet _ _ ∙ q.socketpair_quiet w)
    | inr good ↦ rw good (q.socketpair_quiet w)
  ]

  pub close_same : (fd : ℤ) (w : W) → sent (gneiss_close d fd w).1 ≡ sent w
  unfolding gneiss_close
  close_same fd w = elim (Bool-cases (is_neg fd)) [
    | inl none ↦ rw none refl
    | inr some ↦ elim (Bool-cases (is_nonzero (d.close fd w).0)) [
      | inl bad ↦ rw (some, bad) (q.report_quiet _ _ ∙ q.close_quiet fd w)
      | inr good ↦ rw (some, good) (q.close_quiet fd w)
    ]
  ]

  pub open_same : (path : ℕ) (w : W) → sent (gneiss_open d path false w).1 ≡ sent w
  unfolding gneiss_open
  open_same path w = elim (Bool-cases (is_neg (d.openfile path Descriptor.rdonly w).0)) [
    | inl bad ↦ rw bad (q.report_quiet _ _ ∙ q.open_quiet path Descriptor.rdonly w)
    | inr good ↦ rw good (q.open_quiet path Descriptor.rdonly w)
  ]

  pub timer_same : (w : W) → sent (gneiss_timerfd_create d w).1 ≡ sent w
  unfolding gneiss_timerfd_create
  timer_same w = elim (Bool-cases (is_neg (d.timerfd_create w).0)) [
    | inl bad ↦ rw bad (q.report_quiet _ _ ∙ q.timer_quiet w)
    | inr good ↦ rw good (q.timer_quiet w)
  ]

  pub seal_same : (fd : ℤ) (w : W) → sent (gneiss_memfd_seal f fd w).1 ≡ sent w
  unfolding gneiss_memfd_seal
  seal_same fd w =
      let one = q.seals_quiet fd seal_shrink w in
      let w1 = (f.add_seals fd seal_shrink w).1 in
      let two = q.seals_quiet fd seal_grow w1 ∙ one in
      let w2 = (f.add_seals fd seal_grow w1).1 in
      elim (Bool-cases (is_neg (f.add_seals fd seal_shrink w).0)) [
        | inl a ↦ rw a (q.seal_report_quiet _ _ ∙ one)
        | inr a ↦ elim (Bool-cases (is_neg (f.add_seals fd seal_grow w1).0)) [
          | inl b ↦ rw (a, b) (q.seal_report_quiet _ _ ∙ two)
          | inr b ↦ elim (Bool-cases (is_neg (f.add_seals fd seal_seal w2).0)) [
            | inl c ↦ rw (a, b, c) (q.seal_report_quiet _ _ ∙ q.seals_quiet fd seal_seal w2 ∙ two)
            | inr c ↦ rw (a, b, c) (q.seals_quiet fd seal_seal w2 ∙ two)
          ]
        ]
      ]

  pub epoll_same : (efd fd : ℤ) (w : W) → sent (gneiss_epoll_add_fd e efd fd fd w).1 ≡ sent w
  unfolding gneiss_epoll_add_fd gneiss_epoll_add
  epoll_same efd fd w =
      let p = Epoll.of_fd fd in
      elim (Bool-cases (is_neg (e.epoll_ctl_add efd fd e.rdhup_in p w).0)) [
        | inl bad ↦ rw bad (q.add_report_quiet _ _ ∙ q.add_quiet efd fd e.rdhup_in p w)
        | inr good ↦ rw good (q.add_quiet efd fd e.rdhup_in p w)
      ]

  -- The calls of the broker on Linux meet the laws that Handlers/Serving asks for.
  unfoldable pub platform_laws :
      {C : Type 0} (g : Interface.Calls C) (k : Socket.Calls W) (place : List ℕ → ℕ) (s : Stack)
      → BrokerLaws T (platform d f e g k place s)
  unfolding platform
  platform_laws g k place s = record {
    sent = sent;
    socketpair_same = socketpair_same;
    close_same = close_same;
    seal_same = seal_same;
    open_same = λ path w. open_same (place path) w;
    timer_same = timer_same;
    epoll_same = epoll_same;
  }

module _ {C W : Type 0} (d : Descriptor.Calls W) (f : Memfile.Calls W) (e : Epoll.Calls W)
    (g : Interface.Calls C) (k : Socket.Calls W) (place : List ℕ → ℕ) (s : Stack) where
  -- Without a name or a label of more than 255 characters none of the three procedures that send
  -- raises Constraint_Error: each sends its packet.
  pub platform-sends :
      (fd : ℤ) (kind : Kind) (name label : List ℕ) (fds : List ℤ) (w : W)
      → length name ≤ 255
      → length label ≤ 255
      → let c : Calls W = platform d f e g k place s in
        let descriptors = map pattern fds in
        (c.send_request fd kind name label fds w
          ≡ send g k s fd Format.request kind (label_of name) (label_of label) descriptors w)
        × (c.send_confirm fd kind label fds w
            ≡ send g k s fd Format.confirm kind blank_label (label_of label) descriptors w)
        × (c.send_reject fd kind label w
            ≡ send g k s fd Format.reject kind blank_label (label_of label) [] w)
  unfolding platform
  platform-sends fd kind name label fds w short fits =
      let descriptors = map pattern fds in
      (
        rw (send_request_lem g k s fd kind name label descriptors w short fits) refl,
        rw (send_confirm_lem g k s fd kind label descriptors w fits) refl,
        rw (send_reject_lem g k s fd kind label w fits) refl,
      )
