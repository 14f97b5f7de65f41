-- ===== src/Linux/Broker/Handlers/Replies.antt =====
-- The packets that the broker sends, and what its other calls do between them.
use ada_interfaces.Base.{
  ℕ, ◌≡◌, refl, ◌∙◌, Bool, true, false, not, ◌&&◌, ◌||◌, Bool-cases, inl, inr, Option, none, some,
  List, [], ◌∷◌, length, take, ℤ, Proc,
}
use ada_interfaces.Linux.Packet.Format.{Kind, memory}
use ada_interfaces.Linux.Broker.State.{Service, State}
use ada_interfaces.Linux.Broker.Lookup.{Xml}
use ada_interfaces.Linux.Broker.Requests.{
  Calls, valid, first, setup_service, process_message_request, process_memory_request,
  process_timer_request, close_all, process_rom_request, find_resource_location, open_location,
}
use ada_interfaces.Linux.Broker.Handlers.{is_served}

-- One call of Send_Request, to a service with the name of the source, or of Send_Confirm or
-- Send_Reject, back to the source.
pub data Sent : Type 0 where
  to_service : ℤ → Kind → List ℕ → List ℕ → List ℤ → Sent
  confirmation : ℤ → Kind → List ℕ → List ℤ → Sent
  rejection : ℤ → Kind → List ℕ → Sent

abbrev pub AllValid : List ℤ → Type 0
AllValid [] = Unit {0}
AllValid (fd ∷ fds) = (valid fd ≡ true) × AllValid fds

-- The descriptors of a session: two ends of a socket pair, and for memory the file.
abbrev pub width : Kind → ℕ
width memory = 3
width _ = 2

-- The call settles the request of `source`, whose component has the name, for a session of `kind`
-- with `label`.
abbrev pub IsReply : ℤ → Kind → List ℕ → List ℕ → Sent → Type 0
IsReply source kind name label (to_service fd kind' name' label' fds) =
    (kind' ≡ kind)
    × (name' ≡ name)
    × (label' ≡ label)
    × (is_served kind ≡ true)
    × (valid fd ≡ true)
    × (length fds ≡ width kind)
    × AllValid fds
IsReply source kind name label (confirmation fd kind' label' fds) =
    (fd ≡ source)
    × (kind' ≡ kind)
    × (label' ≡ label)
    × (is_served kind ≡ false)
    × (length fds ≡ 1)
    × AllValid fds
IsReply source kind name label (rejection fd kind' label') =
    (fd ≡ source) × (kind' ≡ kind) × (label' ≡ label)

-- What the call does, whether or not the packet gets through.
abbrev pub issue : {W : Type 0} → Calls W → Sent → Proc W (Unit {0})
issue k (to_service fd kind name label fds) = k.send_request fd kind name label fds
issue k (confirmation fd kind label fds) = k.send_confirm fd kind label fds
issue k (rejection fd kind label) = k.send_reject fd kind label

-- `sent w` is what anyone learns of the packets of the broker, such as the messages that wait at
-- the sockets: the calls other than the three that send leave it alone.
pub record BrokerLaws {W : Type 0} (T : Type 0) (k : Calls W) : Type 0 where
  pub sent : W → T
  pub socketpair_same : (w : W) → sent (k.socketpair w).1 ≡ sent w
  pub close_same : (fd : ℤ) (w : W) → sent (k.close fd w).1 ≡ sent w
  pub seal_same : (fd : ℤ) (w : W) → sent (k.memfd_seal fd w).1 ≡ sent w
  pub open_same : (path : List ℕ) (w : W) → sent (k.openfile path w).1 ≡ sent w
  pub timer_same : (w : W) → sent (k.timerfd_create w).1 ≡ sent w
  pub epoll_same : (efd fd : ℤ) (w : W) → sent (k.epoll_add efd fd w).1 ≡ sent w

and_left : (a b : Bool) → (a && b) ≡ true → a ≡ true
and_left true b e = refl
and_left false b e = e

and_right : (a b : Bool) → (a && b) ≡ true → b ≡ true
and_right true b e = e
and_right false b e = cc

not_or_left : (a b : Bool) → (not a || not b) ≡ false → a ≡ true
not_or_left true b e = refl
not_or_left false b e = cc

module _ {W T : Type 0} (k : Calls W) (t : BrokerLaws T k) where
  close_both-sent : (a b : ℤ) (w : W) → t.sent (k.close b (k.close a w).1).1 ≡ t.sent w
  close_both-sent a b w = t.close_same b _ ∙ t.close_same a w

  pub close_all-sent : (fds : List ℤ) (w : W) → t.sent (close_all k fds w).1 ≡ t.sent w
  unfolding close_all
  close_all-sent [] w = refl
  close_all-sent (fd ∷ fds) w = close_all-sent fds _ ∙ t.close_same fd w

  -- Nothing is sent while a service is set up, and a service that is ready has a socket.
  pub setup_service-valid :
      (efd : ℤ) (s : Service) (w : W)
      → let r = setup_service k efd s w in
        (t.sent r.1 ≡ t.sent w) × (r.0.0 ≡ true → valid r.0.1.broker ≡ true)
  unfolding setup_service
  setup_service-valid efd s w =
      let pair = k.socketpair w in
      elim (Bool-cases (valid s.broker && valid s.disp)) [
        | inl h ↦ rw h (refl, λ _. and_left (valid s.broker) (valid s.disp) h)
        | inr h ↦ elim (Bool-cases (not (valid pair.0.0) || not (valid pair.0.1))) [
          | inl bad ↦
              rw (h, bad) (close_both-sent pair.0.0 pair.0.1 pair.1 ∙ t.socketpair_same w, λ e. cc)
          | inr good ↦ elim (Bool-cases (k.epoll_add efd pair.0.0 pair.1).0) [
            | inl added ↦
                rw (h, good, added)
                  (
                    t.epoll_same efd pair.0.0 pair.1 ∙ t.socketpair_same w,
                    λ _. not_or_left (valid pair.0.0) (valid pair.0.1) good,
                  )
            | inr refused ↦
                rw (h, good, refused)
                  (
                    close_both-sent pair.0.0 pair.0.1 _
                        ∙ t.epoll_same efd pair.0.0 pair.1
                        ∙ t.socketpair_same w,
                    λ e. cc,
                  )
          ]
        ]
      ]

  -- What a procedure that asks for the descriptors of a session does: it sends nothing, and if it
  -- succeeds the first `n` of its descriptors are valid.
  abbrev pub Grants : ℕ → W → (Bool × List ℤ) × W → Type 0
  Grants n w r =
      (t.sent r.1 ≡ t.sent w)
      × (r.0.0 ≡ true → (length (take n r.0.1) ≡ n) × AllValid (take n r.0.1))

  pub process_message_request-Grants : (w : W) → Grants 2 w (process_message_request k w)
  unfolding process_message_request
  process_message_request-Grants w =
      let pair = k.socketpair w in
      elim (Bool-cases (valid pair.0.0 && valid pair.0.1)) [
        | inl h ↦ rw h (
          t.socketpair_same w,
          λ _. (
            refl,
            (
              and_left (valid pair.0.0) (valid pair.0.1) h,
              (and_right (valid pair.0.0) (valid pair.0.1) h, tt),
            ),
          ),
        )
        | inr h ↦ rw h (close_both-sent pair.0.0 pair.0.1 pair.1 ∙ t.socketpair_same w, λ e. cc)
      ]

  pub process_timer_request-Grants : (w : W) → Grants 1 w (process_timer_request k w)
  unfolding process_timer_request
  process_timer_request-Grants w = (t.timer_same w, λ e. (refl, (e, tt)))

  pub process_memory_request-Grants :
      (fds : List ℤ) (w : W) → Grants 3 w (process_memory_request k fds w)
  unfolding process_memory_request
  process_memory_request-Grants fds w =
      let seal = k.memfd_seal (first fds) w in
      let pair = k.socketpair seal.1 in
      let paired = t.socketpair_same seal.1 ∙ t.seal_same (first fds) w in
      elim (Bool-cases (valid (first fds))) [
        | inr bad ↦ rw bad (refl, λ e. cc)
        | inl good ↦ elim (Bool-cases seal.0) [
          | inr left ↦
              rw (good, left) (t.close_same (first fds) _ ∙ t.seal_same (first fds) w, λ e. cc)
          | inl sealed ↦ elim (Bool-cases (valid pair.0.0 && valid pair.0.1)) [
            | inl h ↦
                rw (good, sealed, h)
                  (
                    paired,
                    λ _. (
                      refl,
                      (
                        and_left (valid pair.0.0) (valid pair.0.1) h,
                        (and_right (valid pair.0.0) (valid pair.0.1) h, (good, tt)),
                      ),
                    ),
                  )
            | inr h ↦
                rw (good, sealed, h)
                  (
                    t.close_same (first fds) _ ∙ close_both-sent pair.0.0 pair.0.1 pair.1 ∙ paired,
                    λ e. cc,
                  )
          ]
        ]
      ]

  open_location-Grants :
      (location : Option (List ℕ)) (w : W) → Grants 1 w (open_location k location w)
  open_location-Grants none w = (refl, λ e. cc)
  open_location-Grants (some path) w = (t.open_same path w, λ v. (refl, (v, tt)))

  pub process_rom_request-Grants :
      {N : Type 0} (x : Xml N) (s : State N) (service : N) (w : W)
      → Grants 1 w (process_rom_request k x s service w)
  unfolding process_rom_request
  process_rom_request-Grants x s service w =
      open_location-Grants (find_resource_location k x s service) w
