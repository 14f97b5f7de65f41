-- ===== src/Linux/Broker/State.antt =====
-- What the broker keeps: src/core/linux/gneiss-broker.ads. A descriptor is a C integer; the table
-- of services of a component is a function from the kinds.
use ada_interfaces.Base.{List, ℤ}
use ada_interfaces.Linux.Packet.Format.{Kind}

-- The two ends of a socket pair for a service: the broker's and the one of the component.
pub record Service : Type 0 where
  pub broker : ℤ
  pub disp : ℤ

pub record Component (N : Type 0) : Type 0 where
  pub fd : ℤ
  pub node : N
  pub pid : ℤ
  pub serv : Kind → Service

pub record Resource (N : Type 0) : Type 0 where
  pub fd : ℤ
  pub node : N

pub record State (N : Type 0) : Type 0 where
  pub epoll_fd : ℤ
  pub components : List (Component N)
  pub resources : List (Resource N)
