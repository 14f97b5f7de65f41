-- ===== src/Linux/Client.antt =====
-- A component's side of a session: src/platform/linux/gneiss_internal-client.adb. A string of Ada
-- is the index of its first character and the characters; where Ada raises Constraint_Error the
-- result is `none`.
pub mod Frame
use ada_interfaces.Base.{
  ℕ, ◌+◌, ◌-◌, ◌^◌, Bool, true, false, Option, none, some, List, [], ◌∷◌, length, map, ltb, leb,
  ◌==◌, ◌&&◌, if◌then◌else◌, ℤ, Proc, pure, ◌>>=◌, ◌>>◌,
}
use ada_interfaces.Linux.Socket as Socket
use ada_interfaces.Linux.Socket.{no_fd, overlay}
use ada_interfaces.Linux.Packet.Format.{Action, Kind, kind_code}
use ada_interfaces.Linux.Packet.Format as Format
use ada_interfaces.Linux.Packet.Interface.{Calls}
use ada_interfaces.Linux.Packet.{SessionLabel, BrokerMessage, blank_label}
use ada_interfaces.Linux.Packet as Packet

-- What uninitialised memory held: the buffers of a packet that is sent and of one that is
-- received, a truncation flag, and the buffer for control messages.
pub record Stack : Type 0 where
  pub outgoing : List ℕ
  pub incoming : List ℕ
  pub trunc : ℤ
  pub control : List ℕ

pub record Text : Type 0 where
  pub first : ℕ
  pub chars : List ℕ

-- `Fd > -1`, on the 32-bit pattern of a descriptor.
abbrev pub valid : ℕ → Bool
valid fd = ltb fd (2 ^ 31)

abbrev pub same_kind : Kind → Kind → Bool
same_kind a b = kind_code a == kind_code b

-- `Last := ...; Value (Value'First .. Last) := ...` for a fresh label, whose `Value'First` is 1.
unfoldable pub assigned : ℕ → List ℕ → Option SessionLabel
assigned last chars =
    if leb last 255 && length chars == last
    then some (record { last = last; value = overlay chars blank_label.value })
    else none

-- The slice of `Fds` before the first invalid descriptor.
unfoldable pub valid_prefix : List ℕ → List ℕ
valid_prefix [] = []
valid_prefix (fd ∷ fds) = let rest = valid_prefix fds in if valid fd then fd ∷ rest else []

-- `Msg.Valid and then Msg.Kind = Kind`
abbrev pub is_answer : Option BrokerMessage → Kind → Bool
is_answer none kind = false
is_answer (some m) kind = same_kind m.kind kind

-- `(others => -1)`
abbrev pub no_fds : List ℕ → List ℕ
no_fds = map (λ _. no_fd)

abbrev pub first_fd : List ℕ → ℕ
first_fd [] = no_fd
first_fd (fd ∷ fds) = fd

-- A statement sequence after a declaration that may raise Constraint_Error.
abbrev pub raise_or :
    {W A : Type 0} → Option SessionLabel → A → (SessionLabel → Proc W A) → Proc W A
raise_or none raised f w = (raised, w)
raise_or (some l) raised f w = f l w

module _ {C W : Type 0} (g : Calls C) (k : Socket.Calls W) where
  unfoldable pub send :
      Stack → ℤ → Action → Kind → SessionLabel → SessionLabel → List ℕ → Proc W (Unit {0})
  unfolding Packet.send
  send s = Packet.send g k s.outgoing

  unfoldable pub receive : Stack → ℤ → List ℕ → Bool → Proc W (Option BrokerMessage × List ℕ)
  unfolding Packet.receive
  receive s fd fds block = Packet.receive g k s.incoming fd fds s.trunc block s.control

  -- `others` is what happens elsewhere until the answer is there.
  unfoldable pub register : Stack → Proc W (Unit {0}) → ℤ → Kind → Proc W ℕ
  unfolding send receive
  register s others broker_fd kind = do
    send s broker_fd Format.register kind blank_label blank_label []
    others
    (msg, fds) ← receive s broker_fd (no_fd ∷ []) true
    pure (if is_answer msg kind && valid (first_fd fds) then first_fd fds else no_fd)

  -- The array `fds` as it is afterwards.
  unfoldable pub initialize :
      Stack → Proc W (Unit {0}) → ℤ → Kind → List ℕ → List ℕ → Proc W (Option (List ℕ))
  unfolding send receive valid_prefix
  initialize s others broker_fd kind fds label =
      raise_or (assigned (length label) label) none (λ lbl. (do
        send s broker_fd Format.request kind blank_label lbl (valid_prefix fds)
        others
        (msg, got) ← receive s broker_fd fds true
        pure (some (if is_answer msg kind then got else no_fds got))))

  -- The name, the label and the descriptors of a request; an invalid message has no name.
  unfoldable pub dispatch :
      Stack → ℤ → Kind → List ℕ → Proc W (Option (SessionLabel × SessionLabel × List ℕ))
  unfolding receive
  dispatch s fd kind fds = do
    (msg, got) ← receive s fd fds false
    pure (elim msg [
      | none ↦ none
      | some m ↦ some (m.name, m.label, if same_kind m.kind kind then got else no_fds got)
    ])

  -- The last character of the label has the index `Label'Last`, and that is the length that is
  -- assumed; true is for a call that returns.
  unfoldable pub respond : Stack → Action → ℤ → Kind → List ℕ → Text → List ℕ → Proc W Bool
  unfolding send
  respond s action fd kind name label fds = raise_or (assigned (length name) name) false (λ n.
      raise_or (assigned (label.first + length label.chars - 1) label.chars) false
        (λ l. (do send s fd action kind n l fds; pure true)))

  unfoldable pub confirm : Stack → ℤ → Kind → List ℕ → Text → List ℕ → Proc W Bool
  unfolding respond
  confirm s = respond s Format.confirm

  unfoldable pub reject : Stack → ℤ → Kind → List ℕ → Text → Proc W Bool
  unfolding respond
  reject s fd kind name label = respond s Format.reject fd kind name label []
