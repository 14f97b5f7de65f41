-- ===== src/Linux/Packet/Written.antt =====
-- The bytes that `Send` writes (src/platform/linux/gneiss_internal-packet.adb).
use mathlib.Core.List.{append_assoc}
use ada_interfaces.Base.{
  ℕ, zero, suc, ◌≤◌, ◌<◌, ◌≡◌, refl, sym, ap, ◌∙◌, false, Bool-cases, inl, inr, List, [], ◌∷◌, ◌++◌,
  length, take, ltb, if◌then◌else◌, arith,
}
use ada_interfaces.Linux.Socket.{overlay}
use ada_interfaces.Linux.Packet.{SessionLabel, contents, set_data, written_packet}
use ada_interfaces.Linux.Packet.Format.{
  Action, Kind, Packet, action_code, kind_code, encode, length-encode,
}
use ada_interfaces.Linux.Packet.Interface.{
  name_length_field, label_length_field, final_field, name_field, label_field, Calls, PacketLaws,
  Field, progress,
}
use ada_interfaces.Linux.Packet.Fields.{IsLabel, length-contents, set_data_lem}

-- The packet that a call of `Send` stands for.
abbrev pub packet_of : Action → Kind → SessionLabel → SessionLabel → Packet
packet_of action kind name label = record {
  action = action;
  kind = kind;
  name = contents name;
  label = contents label;
}

module _ {C : Type 0} (g : Calls C) (l : PacketLaws g) where
  -- A length and, if it is not 0, a payload.
  field_lem :
      (set_length : ℕ → C → C) (set_payload : (ℕ → List ℕ) → C → C) (here after : Field)
      (payload : ℕ → Field)
      → ((n : ℕ) (c : C) (xs b : List ℕ)
          → n < 256
          → l.view c ≡ progress here xs b
          → l.view (set_length n c)
            ≡ progress (if ltb 0 n then payload n else after) (xs ++ n ∷ []) b)
      → ((f : ℕ → List ℕ) (n : ℕ) (c : C) (xs b : List ℕ)
          → length (f n) ≡ n
          → l.view c ≡ progress (payload n) xs b
          → l.view (set_payload f c) ≡ progress after (xs ++ f n) b)
      → (s : SessionLabel) (c : C) (xs b : List ℕ) → IsLabel s
      → l.view c ≡ progress here xs b
      → let c' = set_length s.last c in
        l.view (if ltb 0 s.last then set_payload (set_data (contents s)) c' else c')
        ≡ progress after (xs ++ s.last ∷ contents s) b
  field_lem set_length set_payload here after payload sl sp s c xs b a e =
      let first = sl s.last c xs b (omega (arith, a.0)) e in
      elim (Bool-cases (ltb 0 s.last)) [
        | inl h ↦
            let filled : set_data (contents s) s.last ≡ contents s =
              ap (set_data (contents s)) (sym (length-contents s a)) ∙ set_data_lem (contents s) in
            let len = rw h at first in
            let done =
              sp (set_data (contents s)) s.last _ _ b (ap length filled ∙ length-contents s a)
                len in
            rw h (rw (filled, append_assoc xs (s.last ∷ []) (contents s)) at done)
        | inr h ↦
            let len = rw h at first in
            let empty : contents s ≡ [] = nothing s.last s.value h in rw (h, empty) len
      ]
    where
      nothing : (n : ℕ) (v : List ℕ) → ltb 0 n ≡ false → take n v ≡ []
      nothing zero v h = refl
      nothing (suc n) v h = absurd (ground arith)

  -- The fields in their order over what the buffer held.
  pub written_packet-encode :
      (buffer : List ℕ) (action : Action) (kind : Kind) (name label : SessionLabel)
      → IsLabel name
      → IsLabel label
      → length buffer ≡ 1024
      → written_packet g buffer action kind name label
        ≡ overlay (encode (packet_of action kind name label)) buffer
  unfolding written_packet encode
  written_packet-encode buffer action kind name label an al room =
      let e0 =
        l.set_kind_lem kind _ _ buffer
          (l.set_action_lem action _ [] buffer (l.initialize_lem buffer)) in
      let e1 =
        field_lem g.set_name_length g.set_name name_length_field label_length_field name_field
          l.set_name_length_lem l.set_name_lem name _ _ buffer an e0 in
      let e2 =
        field_lem g.set_label_length g.set_label label_length_field final_field label_field
          l.set_label_length_lem l.set_label_lem label _ _ buffer al e1 in
      let p = packet_of action kind name label in
      let same : action_code action
            ∷ kind_code kind
            ∷ name.last
            ∷ (contents name ++ label.last ∷ contents label)
          ≡ encode p =
        rw (length-contents name an, length-contents label al) refl in
      let fits : length (encode p) ≤ length buffer =
        omega
          (arith, length-encode p, length-contents name an, length-contents label al, an.0, al.0) in
      l.take_buffer_lem _ _ buffer (rw same at e2) fits
