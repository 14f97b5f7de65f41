-- ===== src/Linux/Packet.antt =====
-- The packet layer below a session: src/platform/linux/gneiss_internal-packet.adb and the types of
-- gneiss_internal.ads that it uses. Characters and bytes are numbers.
pub mod Format
pub mod Interface
pub mod Fields
pub mod Written
pub mod Parsed
pub mod Delivery
use ada_interfaces.Base.{
  ℕ, zero, suc, ◌+◌, ◌-◌, Bool, true, false, ◌&&◌, ◌||◌, Option, none, some, List, [], ◌∷◌, length,
  set, take, replicate, ltb, ◌==◌, if◌then◌else◌, ℤ, pos, negsuc, Proc, pure, ◌>>=◌,
}
use ada_interfaces.Linux.Socket.{gneiss_write_message, gneiss_read_message}
use ada_interfaces.Linux.Socket as Socket
use Format.{Action, Kind}
use Interface.{Calls}

pub record SessionLabel : Type 0 where
  pub last : ℕ
  pub value : List ℕ

-- What a `Session_Label` is when nothing is assigned.
abbrev pub blank_label : SessionLabel
blank_label = record { last = 0; value = replicate 255 0 }

-- `Value (Value'First .. Last)`
abbrev pub contents : SessionLabel → List ℕ
contents l = take l.last l.value

-- A valid `Broker_Message`; an invalid one is `none`.
pub record BrokerMessage : Type 0 where
  pub action : Action
  pub kind : Kind
  pub name : SessionLabel
  pub label : SessionLabel

abbrev is_nil : List ℕ → Bool
is_nil [] = true
is_nil (x ∷ xs) = false

-- The loop of `Get`, from index `i` of the field on: the final index and the field.
unfoldable pub get_loop : ℕ → List ℕ → List ℕ → ℕ × List ℕ
get_loop i [] field = (i, field)
get_loop i (x ∷ xs) field =
    let stored = set field (i - 1) x in
    let rest = get_loop (suc i) xs stored in if i == 255 || is_nil xs then (i, stored) else rest

unfoldable pub get : List ℕ → SessionLabel → SessionLabel
unfolding get_loop
get bytes field = let r = get_loop 1 bytes field.value in record { last = r.0; value = r.1 }

-- `Set`: the array of `n` bytes that is zeroed and then filled from a field.
unfoldable pub set_data : List ℕ → ℕ → List ℕ
set_data field zero = []
set_data [] (suc n) = replicate (suc n) 0
set_data (x ∷ []) (suc n) = x ∷ replicate n 0
set_data (x ∷ y ∷ xs) (suc n) = x ∷ set_data (y ∷ xs) n

-- `Length := (if Len > 0 then Len else 0)`
abbrev pub received_length : ℤ → ℕ
received_length (pos n) = n
received_length (negsuc n) = 0

module _ {C : Type 0} (g : Calls C) where
  -- What `Send` leaves in the buffer, which held `buffer`.
  unfoldable pub written_packet : List ℕ → Action → Kind → SessionLabel → SessionLabel → List ℕ
  unfolding set_data
  written_packet buffer action kind name label =
      let c = g.set_kind kind (g.set_action action (g.initialize buffer)) in
      let c = g.set_name_length name.last c in
      let c = if ltb 0 name.last then g.set_name (set_data (contents name)) c else c in
      let c = g.set_label_length label.last c in
      let c = if ltb 0 label.last then g.set_label (set_data (contents label)) c else c in
      g.take_buffer c

  unfoldable pub parsed_name : C → SessionLabel
  unfolding get
  parsed_name c =
      if ltb 0 (g.get_name_length c) && g.present_name c
      then get (g.get_name c) blank_label
      else blank_label

  unfoldable pub parsed_label : C → SessionLabel
  unfolding get
  parsed_label c =
      if ltb 0 (g.get_label_length c) && g.present_label c
      then get (g.get_label c) blank_label
      else blank_label

  -- `Receive` from the length test on.
  unfoldable pub parsed_message : ℕ → List ℕ → Option BrokerMessage
  unfolding parsed_name parsed_label
  parsed_message n buffer =
      let c = g.verify_message (g.initialize buffer) in
      if n == 0
      then none
      else if g.structural_valid_message c
      then some (record {
        action = g.get_action c;
        kind = g.get_kind c;
        name = parsed_name c;
        label = parsed_label c;
      })
      else none

  module _ {W : Type 0} (k : Socket.Calls W) where
    -- `buffer` is what the 1024 bytes of the buffer held.
    unfoldable pub send :
        List ℕ → ℤ → Action → Kind → SessionLabel → SessionLabel → List ℕ → Proc W (Unit {0})
    unfolding written_packet gneiss_write_message
    send buffer fd action kind name label fds =
        gneiss_write_message k fd (written_packet buffer action kind name label)
          (4 + name.last + label.last) fds (length fds)

    -- `fds` and `trunc` are the old content of the out parameters.
    unfoldable pub receive :
        List ℕ → ℤ → List ℕ → ℤ → Bool → List ℕ → Proc W (Option BrokerMessage × List ℕ)
    unfolding parsed_message gneiss_read_message
    receive buffer fd fds trunc block stack = do
      r ← gneiss_read_message k fd buffer (length buffer) fds (length fds) trunc block stack
      pure (parsed_message (received_length r.length) r.msg, r.fds)
