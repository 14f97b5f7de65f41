-- ===== src/Linux/Broker/Handlers/Invariant.antt =====
-- What stays true of the broker's table of services, whatever packets it handles.
use ada_interfaces.Base.{
  ℕ, zero, suc, ◌≡◌, refl, sym, subst, ◌∙◌, Bool, true, false, not, ◌&&◌, ◌||◌, Bool-cases, inl,
  inr, Option, none, some, List, [], ◌∷◌, length, set, get_elem?, leb, ℤ, arith,
}
use ada_interfaces.Linux.Packet.Format.{Kind}
use ada_interfaces.Linux.Client.{same_kind}
use ada_interfaces.Linux.Broker.State.{Service, Component, State}
use ada_interfaces.Linux.Broker.Lookup.{Xml}
use ada_interfaces.Linux.Broker.Requests.{
  Calls, Provider, missing, itself, component, valid, setup_service, process_message_request,
  process_memory_request,
}
use ada_interfaces.Linux.Broker.Handlers.{
  put_entry, put_service, numbered, destination, forward, answer, serve_message, serve_memory,
}

-- Both ends of the socket pair for a service are there, or neither.
abbrev pub IsPaired : Service → Type 0
IsPaired s = valid s.broker ≡ valid s.disp

module _ {N : Type 0} where
  abbrev pub AllPaired : List (Component N) → Type 0
  AllPaired [] = Unit {0}
  AllPaired (c ∷ cs) = ((kind : Kind) → IsPaired (c.serv kind)) × AllPaired cs

  -- The services of all components are paired.
  abbrev pub IsSound : State N → Type 0
  IsSound s = AllPaired s.components

  pub get_elem-IsPaired :
      (cs : List (Component N)) (i : ℕ) (c : Component N)
      → AllPaired cs
      → get_elem? cs i ≡ some c
      → (kind : Kind) → IsPaired (c.serv kind)
  get_elem-IsPaired [] i c a e kind = cc
  get_elem-IsPaired (d ∷ ds) zero c (here, there) e kind =
      let same : d ≡ c = cc in rw same at here kind
  get_elem-IsPaired (d ∷ ds) (suc i) c (here, there) e kind = get_elem-IsPaired ds i c there e kind

  set-AllPaired :
      (cs : List (Component N)) (i : ℕ) (c : Component N)
      → AllPaired cs
      → ((kind : Kind) → IsPaired (c.serv kind))
      → AllPaired (set cs i c)
  set-AllPaired [] i c a p = tt
  set-AllPaired (d ∷ ds) zero c (here, there) p = (p, there)
  set-AllPaired (d ∷ ds) (suc i) c (here, there) p = (here, set-AllPaired ds i c there p)

  pub put_service-IsSound :
      (s : State N) (i : ℕ) (c : Component N) (kind : Kind) (v : Service)
      → IsSound s
      → ((q : Kind) → IsPaired (c.serv q))
      → IsPaired v
      → IsSound (put_service s i c kind v)
  unfolding put_service
  put_service-IsSound s i c kind v a p pv =
      set-AllPaired s.components i (put_entry kind v c) a (λ q.
        elim (Bool-cases (same_kind q kind)) [ inl same ↦ rw same pv | inr other ↦ rw other (p q) ])

  numbered-IsPaired :
      (s : State N) (i : ℕ) (o : Option (Component N)) (d : ℕ × Component N)
      → IsSound s
      → get_elem? s.components i ≡ o
      → numbered i o ≡ some d
      → (kind : Kind) → IsPaired (d.1.serv kind)
  numbered-IsPaired s i none d a e h kind = cc
  numbered-IsPaired s i (some c) d a e h kind =
      let same : (i, c) ≡ d = cc in
      let p = get_elem-IsPaired s.components i c a e kind in
      subst (λ q. IsPaired (q.1.serv kind)) same p

  destination-IsPaired :
      (s : State N) (p : Provider) (d : ℕ × Component N)
      → IsSound s
      → destination s p ≡ some d
      → (kind : Kind) → IsPaired (d.1.serv kind)
  destination-IsPaired s missing d a e kind = cc
  destination-IsPaired s itself d a e kind = cc
  destination-IsPaired s (component i) d a e kind =
      numbered-IsPaired s i (get_elem? s.components i) d a refl e kind

-- A closed descriptor is not valid any more.
pub record CloseLaws {W : Type 0} (k : Calls W) : Type 0 where
  pub close_invalid : (fd : ℤ) (w : W) → valid (k.close fd w).0 ≡ false

and_eq : (a b : Bool) → (a && b) ≡ true → a ≡ b
and_eq true b e = sym e
and_eq false b e = cc

not_or_eq : (a b : Bool) → (not a || not b) ≡ false → a ≡ b
not_or_eq true true e = refl
not_or_eq true false e = cc
not_or_eq false b e = cc

module _ {W : Type 0} (k : Calls W) (t : CloseLaws k) where
  both_closed : (a b : ℤ) (w : W) → valid (k.close a w).0 ≡ valid (k.close b (k.close a w).1).0
  both_closed a b w = t.close_invalid a w ∙ sym (t.close_invalid b _)

  pub setup_service-IsPaired :
      (efd : ℤ) (s : Service) (w : W) → IsPaired (setup_service k efd s w).0.1
  unfolding setup_service
  setup_service-IsPaired efd s w =
      let pair = k.socketpair w in
      elim (Bool-cases (valid s.broker && valid s.disp)) [
        | inl h ↦ rw h (and_eq (valid s.broker) (valid s.disp) h)
        | inr h ↦ elim (Bool-cases (not (valid pair.0.0) || not (valid pair.0.1))) [
          | inl bad ↦ rw (h, bad) (both_closed pair.0.0 pair.0.1 pair.1)
          | inr good ↦ elim (Bool-cases (k.epoll_add efd pair.0.0 pair.1).0) [
            | inl added ↦ rw (h, good, added) (not_or_eq (valid pair.0.0) (valid pair.0.1) good)
            | inr refused ↦ rw (h, good, refused) (both_closed pair.0.0 pair.0.1 _)
          ]
        ]
      ]

  module _ {N : Type 0} (x : Xml N) where
    forward-IsSound :
        (s : State N) (d : ℕ × Component N) (source : ℤ) (kind : Kind) (name label : List ℕ) (n : ℕ)
        (fds : List ℤ) (w : W)
        → IsSound s
        → ((q : Kind) → IsPaired (d.1.serv q))
        → IsSound (forward k x s d source kind name label n fds w).0
    unfolding forward
    forward-IsSound s (i, c) source kind name label n fds w a p =
        let set = setup_service k s.epoll_fd (c.serv kind) w in
        let sound =
          put_service-IsSound s i c kind set.0.1 a p
            (setup_service-IsPaired s.epoll_fd (c.serv kind) w) in
        elim (Bool-cases set.0.0) [ inl ready ↦ rw ready sound | inr bad ↦ rw bad sound ]

    pub answer-IsSound :
        (s : State N) (source : ℤ) (kind : Kind) (label : List ℕ) (r : Bool × List ℤ) (w : W)
        → IsSound s
        → IsSound (answer k x s source kind label r w).0
    unfolding answer
    answer-IsSound s source kind label (true, fds) w a = a
    answer-IsSound s source kind label (false, fds) w a = a

    pub serve_message-IsSound :
        (s : State N) (source : ℤ) (kind : Kind) (name label : List ℕ) (p : Provider)
        (d : Option (ℕ × Component N)) (w : W)
        → IsSound s
        → destination s p ≡ d
        → IsSound (serve_message k x s source kind name label d w).0
    unfolding serve_message
    serve_message-IsSound s source kind name label p none w a e = a
    serve_message-IsSound s source kind name label p (some d) w a e =
        elim (Bool-cases (process_message_request k w).0.0) [
          | inl granted ↦
              rw granted (
                forward-IsSound s d source kind name label 2 _ _ a (destination-IsPaired s p d a e))
          | inr refused ↦ rw refused a
        ]

    pub serve_memory-IsSound :
        (s : State N) (source : ℤ) (kind : Kind) (name label : List ℕ) (fds : List ℤ) (p : Provider)
        (d : Option (ℕ × Component N)) (w : W)
        → IsSound s
        → destination s p ≡ d
        → IsSound (serve_memory k x s source kind name label fds d w).0
    unfolding serve_memory
    serve_memory-IsSound s source kind name label fds p none w a e = a
    serve_memory-IsSound s source kind name label [] p (some d) w a e = a
    serve_memory-IsSound s source kind name label (fd ∷ fds) p (some d) w a e =
        let some_fd : leb 1 (length (fd ∷ fds)) ≡ true = ground arith in
        elim (Bool-cases (process_memory_request k (fd ∷ fds) w).0.0) [
          | inl granted ↦
              rw (some_fd, granted)
                (forward-IsSound s d source kind name label 3 _ _ a
                  (destination-IsPaired s p d a e))
          | inr refused ↦ rw (some_fd, refused) a
        ]
