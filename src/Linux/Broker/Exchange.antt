-- ===== src/Linux/Broker/Exchange.antt =====
-- A component that asks for a session and the broker that answers, at the two ends of a socket
-- pair: gneiss_internal-client.adb and gneiss-broker-message.adb.
use ada_interfaces.Base.{
  ℕ, ◌≤◌, ◌≡◌, refl, ◌∙◌, true, some, List, [], length, drop, leb, ◌==◌, if◌then◌else◌, ℤ, Proc,
  arith, take_left, length-append, length-drop, length-replicate,
}
use ada_interfaces.Linux.Socket as Socket
use ada_interfaces.Linux.Socket.{no_fd, overlay}
use ada_interfaces.Linux.Packet.Format.{Action, Kind, Packet, kind_code, encode}
use ada_interfaces.Linux.Packet.Format as Format
use ada_interfaces.Linux.Packet.Interface.{Calls}
use ada_interfaces.Linux.Packet.{SessionLabel, blank_label, contents}
use ada_interfaces.Linux.Packet.Fields.{IsLabel}
use ada_interfaces.Linux.Client.{
  Stack, assigned, valid_prefix, send, receive, initialize, is_answer, no_fds,
}
use ada_interfaces.Linux.Broker.{send_request, send_confirm, send_reject}

-- The label that a string is assigned to.
abbrev pub label_of : List ℕ → SessionLabel
label_of chars = record { last = length chars; value = overlay chars blank_label.value }

abbrev pub IsStack : Stack → Type 0
IsStack s = (length s.outgoing ≡ 1024) × (length s.incoming ≡ 1024)

assigned_lem :
    (chars : List ℕ) → length chars ≤ 255 → assigned (length chars) chars ≡ some (label_of chars)
unfolding assigned
assigned_lem chars fits =
    let short : leb (length chars) 255 ≡ true = ground arith in
    let same : (length chars == length chars) ≡ true = ground arith in rw (short, same) refl

pub label_of-IsLabel : (chars : List ℕ) → length chars ≤ 255 → IsLabel (label_of chars)
label_of-IsLabel chars fits = (
  fits,
  length-append chars (drop (length chars) blank_label.value)
      ∙ omega (arith, length-drop (length chars) blank_label.value, length-replicate {A = ℕ} 255 0),
)

pub contents-label_of : (chars : List ℕ) → contents (label_of chars) ≡ chars
contents-label_of chars = take_left chars (drop (length chars) blank_label.value)

module _ {C W : Type 0} (g : Calls C) (k : Socket.Calls W) where
  -- Initialize with a label that fits, call by call.
  pub initialize_lem :
      (s : Stack) (others : Proc W (Unit {0})) (fd : ℤ) (kind : Kind) (fds label : List ℕ) (w : W)
      → length label ≤ 255
      → let w' =
          (send g k s fd Format.request kind blank_label (label_of label) (valid_prefix fds) w).1 in
        let r = receive g k s fd fds true (others w').1 in
        initialize g k s others fd kind fds label w
        ≡ (some (if is_answer r.0.0 kind then r.0.1 else no_fds r.0.1), r.1)
  unfolding initialize
  initialize_lem s others fd kind fds label w fits = rw (assigned_lem label fits) refl

  pub send_request_lem :
      (s : Stack) (fd : ℤ) (kind : Kind) (name label fds : List ℕ) (w : W)
      → length name ≤ 255
      → length label ≤ 255
      → send_request g k s fd kind name label fds w
        ≡ (true, (send g k s fd Format.request kind (label_of name) (label_of label) fds w).1)
  unfolding send_request
  send_request_lem s fd kind name label fds w short fits =
      rw (assigned_lem name short, assigned_lem label fits) refl

  pub send_confirm_lem :
      (s : Stack) (fd : ℤ) (kind : Kind) (label fds : List ℕ) (w : W)
      → length label ≤ 255
      → send_confirm g k s fd kind label fds w
        ≡ (true, (send g k s fd Format.confirm kind blank_label (label_of label) fds w).1)
  unfolding send_confirm
  send_confirm_lem s fd kind label fds w fits = rw (assigned_lem label fits) refl

  pub send_reject_lem :
      (s : Stack) (fd : ℤ) (kind : Kind) (label : List ℕ) (w : W)
      → length label ≤ 255
      → send_reject g k s fd kind label w
        ≡ (true, (send g k s fd Format.reject kind blank_label (label_of label) [] w).1)
  unfolding send_reject
  send_reject_lem s fd kind label w fits = rw (assigned_lem label fits) refl
