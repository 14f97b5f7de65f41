-- ===== src/Tests/Packets.antt =====
-- Packets over the kernel of Tests/Pairs, with generated code that meets the rules of the format.
use ada_interfaces.Base.{
  ℕ, refl, ap, Bool, true, false, Option, none, some, [], ◌∷◌, ◌++◌, length, ltb, if◌then◌else◌,
}
use ada_interfaces.Linux.Socket.{overlay}
use ada_interfaces.Linux.Packet.Format.{
  Action, Kind, Packet, action_code, kind_code, encode, decode,
}
use ada_interfaces.Linux.Packet.Format as Format
use ada_interfaces.Linux.Packet.Interface.{
  Calls, PacketLaws, Progress, Field, progress, name_field, label_field, name_length_field,
  label_length_field, final_field, action_field, kind_field,
}

abbrev default : Packet
default = record { action = Format.request; kind = Format.message; name = []; label = [] }

abbrev valid_packet : Option Packet → Bool
valid_packet none = false
valid_packet (some p) = true

abbrev packet_or : Option Packet → Packet
packet_or none = default
packet_or (some p) = p

abbrev seen : Progress → Packet
seen c = packet_or (decode c.buffer)

-- The length of the payload that comes next.
abbrev room_of : Field → ℕ
room_of (name_field n) = n
room_of (label_field n) = n
room_of _ = 0

abbrev pub generated : Calls Progress
generated = record {
  initialize = progress action_field [];
  set_action = λ a c. progress kind_field (c.written ++ action_code a ∷ []) c.buffer;
  set_kind = λ a c. progress name_length_field (c.written ++ kind_code a ∷ []) c.buffer;
  set_name_length = λ n c.
      progress (if ltb 0 n then name_field n else label_length_field) (c.written ++ n ∷ [])
        c.buffer;
  set_name = λ f c. progress label_length_field (c.written ++ f (room_of c.next)) c.buffer;
  set_label_length = λ n c.
      progress (if ltb 0 n then label_field n else final_field) (c.written ++ n ∷ []) c.buffer;
  set_label = λ f c. progress final_field (c.written ++ f (room_of c.next)) c.buffer;
  take_buffer = λ c. overlay c.written c.buffer;
  verify_message = λ c. c;
  structural_valid_message = λ c. valid_packet (decode c.buffer);
  get_action = λ c. (seen c).action;
  get_kind = λ c. (seen c).kind;
  get_name_length = λ c. length (seen c).name;
  present_name = λ c. ltb 0 (length (seen c).name);
  get_name = λ c. (seen c).name;
  get_label_length = λ c. length (seen c).label;
  present_label = λ c. ltb 0 (length (seen c).label);
  get_label = λ c. (seen c).label;
}

abbrev pub generated_laws : PacketLaws generated
generated_laws = record {
  view = λ c. c;
  initialize_lem = λ b. refl;
  set_action_lem = λ a c xs b e. rw e refl;
  set_kind_lem = λ a c xs b e. rw e refl;
  set_name_length_lem = λ n c xs b h e. rw e refl;
  set_name_lem = λ f n c xs b h e. rw e refl;
  set_label_length_lem = λ n c xs b h e. rw e refl;
  set_label_lem = λ f n c xs b h e. rw e refl;
  take_buffer_lem = λ c xs b e h. rw e refl;
  invalid_lem = λ b e. ap valid_packet e;
  valid_lem = λ b p e. (
    ap valid_packet e,
    ap (λ o. (packet_or o).action) e,
    ap (λ o. (packet_or o).kind) e,
    ap (λ o. length (packet_or o).name) e,
    ap (λ o. length (packet_or o).label) e,
  );
  name_lem = λ b p e h. (rw e h, ap (λ o. (packet_or o).name) e);
  label_lem = λ b p e h. (rw e h, ap (λ o. (packet_or o).label) e);
}
