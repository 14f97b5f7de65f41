-- ===== src/Tests/Brokers.antt =====
-- A broker with two components, of which the first may use the log service of the second.
use ada_interfaces.Base.{
  ◌<◌, length, ℕ, ◌+◌, ◌≡◌, ◌≢◌, refl, Bool-cases, inl, inr, ==_iff, true, false, not, ◌&&◌, Option,
  none, some, List, [], ◌∷◌, ◌++◌, ◌==◌, if◌then◌else◌, ℤ, pos, minus_one, arith,
}
use ada_interfaces.Linux.Packet.Format.{Kind, log, register}
use ada_interfaces.Linux.Packet.{BrokerMessage, blank_label}
use ada_interfaces.Linux.Broker.State.{Service, Component, State}
use ada_interfaces.Linux.Broker.Lookup.{
  Xml, Answer, Attribute, found, not_found, attr_name, attr_server, match_service, find_name,
}
use ada_interfaces.Linux.Broker.Lookup.Match.{XmlLaws, IsChoice, match_service-IsChoice}
use ada_interfaces.Linux.Broker.Requests.{Calls}
use ada_interfaces.Linux.Broker.Handlers.{process_request}
use ada_interfaces.Linux.Broker.Handlers.Invariant.{CloseLaws}
use ada_interfaces.Linux.Broker.Messages.Soundness.{GoesOn, read_all, read_all-GoesOn}
use ada_interfaces.Linux.Broker.Handlers.Replies.{
  Sent, to_service, confirmation, rejection, BrokerLaws,
}
use ada_interfaces.Linux.Broker.Handlers.Serving.{Served, process_request-Served}

-- The packets that were sent, and the next descriptor.
record World : Type 0 where
  sent : List Sent
  next : ℕ

abbrev send : Sent → World → Unit {0} × World
send p w = (tt, record w { sent = w.sent ++ p ∷ [] })

abbrev registration : BrokerMessage
registration = record { action = register; kind = log; name = blank_label; label = blank_label }

abbrev kernel : Calls World
kernel = record {
  socketpair = λ w. ((pos w.next, pos (w.next + 1)), record w { next = w.next + 2 });
  close = λ fd w. (minus_one, w);
  memfd_seal = λ fd w. (true, w);
  openfile = λ path w. (pos w.next, record w { next = w.next + 1 });
  timerfd_create = λ w. (pos w.next, record w { next = w.next + 1 });
  epoll_add = λ efd fd w. (true, w);
  send_request = λ fd kind name label fds. send (to_service fd kind name label fds);
  send_confirm = λ fd kind label fds. send (confirmation fd kind label fds);
  send_reject = λ fd kind label. send (rejection fd kind label);
  receive = λ fd w. ((some registration, minus_one ∷ minus_one ∷ minus_one ∷ minus_one ∷ []), w);
}

abbrev kernel_laws : BrokerLaws (List Sent) kernel
kernel_laws = record {
  sent = λ w. w.sent;
  socketpair_same = λ w. refl;
  close_same = λ fd w. refl;
  seal_same = λ fd w. refl;
  open_same = λ path w. refl;
  timer_same = λ w. refl;
  epoll_same = λ efd fd w. refl;
}

-- Node 0 is invalid, 1 and 2 are the components "a" and "b", and 10 is the log service of "a".
abbrev pub attribute_of : ℕ → Attribute → Answer
attribute_of n attr_name =
    if n == 1 then found (97 ∷ []) else if n == 2 then found (98 ∷ []) else not_found
attribute_of n attr_server = if n == 10 then found (98 ∷ []) else not_found
attribute_of n _ = not_found

abbrev pub config : Xml ℕ
config = record {
  invalid_state = 0;
  is_invalid = λ n. n == 0;
  is_initial = λ n. false;
  is_open = λ n. true;
  is_ok = λ n. not (n == 0);
  child = λ n. if n == 1 then 10 else 0;
  sibling = λ n. 0;
  find_service = λ n kind. if n == 10 then 10 else 0;
  attribute = attribute_of;
}

abbrev pub from_node : ℕ → List ℕ
from_node q = if q == 10 then 10 ∷ [] else []

-- The services from a node on, as the loop meets them.
pub from_node_lem :
    (q : ℕ)
    → from_node q ≡ (
        if config.is_ok q && config.is_ok (config.find_service q log)
        then config.find_service q log ∷ []
        else [])
from_node_lem q = elim (Bool-cases (q == 10)) [
  | inl same ↦ let e = (==_iff q 10).0 same in rw e refl
  | inr other ↦ rw other (ground arith)
]

abbrev pub config_laws : XmlLaws config
config_laws = record {
  services = λ q kind. from_node q;
  services_none = λ q kind h. let r = from_node_lem q in rw h at r;
  services_next = λ q kind h. let r = from_node_lem q in rw h at r;
}

abbrev pub unused : Kind → Service
unused kind = record { broker = minus_one; disp = minus_one }

abbrev pub component_at : ℤ → ℕ → Component ℕ
component_at fd node = record { fd = fd; node = node; pid = pos 1; serv = unused }

abbrev pub broker : State ℕ
broker = record {
  epoll_fd = pos 3;
  components = component_at (pos 5) 1 ∷ component_at (pos 6) 2 ∷ [];
  resources = [];
}

abbrev start : World
start = record { sent = []; next = 20 }

abbrev served : Option (State ℕ) × World
served = process_request kernel config 2 broker 0 log (104 ∷ []) [] start

-- The log service of "b" gets the two ends of a pair over the broker's new socket to "b".
log_request :
    served.1.sent ≡ to_service (pos 22) log (97 ∷ []) (104 ∷ []) (pos 20 ∷ pos 21 ∷ []) ∷ []
unfolding process_request match_service find_name
log_request = refl

process_request-Served_example :
    (served.0 ≢ none)
    × Served kernel config kernel_laws (pos 5) log (97 ∷ []) (104 ∷ []) start served.1
process_request-Served_example =
    process_request-Served kernel config kernel_laws config_laws 2 broker 0 log (104 ∷ []) [] start
      (component_at (pos 5) 1) refl refl (omega arith)

match_service-IsChoice_example :
    (r : ℕ) × (match_service config 2 1 log (104 ∷ []) ≡ some r)
    × IsChoice config (104 ∷ []) (10 ∷ []) 0 r
match_service-IsChoice_example =
    match_service-IsChoice config config_laws 2 1 log (104 ∷ []) (omega arith)

abbrev close_laws : CloseLaws kernel
close_laws = record { close_invalid = λ fd w. refl }

from_node_short : (q : ℕ) → length (from_node q) < 2
from_node_short q = elim (Bool-cases (q == 10)) [
  | inl here ↦ rw here (omega arith)
  | inr elsewhere ↦ rw elsewhere (omega arith)
]

-- The component "b" registers twice for the log service.
abbrev events : List (ℕ × ℤ)
events = (1, pos 6) ∷ (1, pos 6) ∷ []

read_all-GoesOn_example :
    GoesOn kernel close_laws config
      (read_all kernel close_laws config 2 events (some broker) start).0
read_all-GoesOn_example =
    read_all-GoesOn kernel close_laws config config_laws 2
      (λ node kind. from_node_short (config.child node)) events broker start
      ((λ kind. refl), ((λ kind. refl), tt))
