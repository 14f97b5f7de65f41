-- ===== src/Linux/Packet/Interface.antt =====
-- The code that RecordFlux generates for a packet, as calls on its context, and what it does by the
-- rules of src/platform/linux/session.rflx.
use ada_interfaces.Base.{
  ℕ, ◌<◌, ◌≤◌, ◌≡◌, Bool, true, false, none, some, List, [], ◌∷◌, ◌++◌, length, ltb, if◌then◌else◌,
}
use ada_interfaces.Linux.Socket.{overlay}
use ada_interfaces.Linux.Packet.Format.{Action, Kind, Packet, action_code, kind_code, decode}

-- Gneiss_Protocol.Session.Packet. A procedure that fills a field gets the length of the array that
-- it is to fill.
pub record Calls (C : Type 0) : Type 0 where
  pub initialize : List ℕ → C
  pub set_action : Action → C → C
  pub set_kind : Kind → C → C
  pub set_name_length : ℕ → C → C
  pub set_name : (ℕ → List ℕ) → C → C
  pub set_label_length : ℕ → C → C
  pub set_label : (ℕ → List ℕ) → C → C
  pub take_buffer : C → List ℕ
  pub verify_message : C → C
  pub structural_valid_message : C → Bool
  pub get_action : C → Action
  pub get_kind : C → Kind
  pub get_name_length : C → ℕ
  pub present_name : C → Bool
  pub get_name : C → List ℕ
  pub get_label_length : C → ℕ
  pub present_label : C → Bool
  pub get_label : C → List ℕ

-- The field that comes next when a packet is written; a payload has its length.
pub data Field : Type 0 where
  action_field kind_field name_length_field label_length_field final_field : Field
  name_field label_field : ℕ → Field

-- What is written, and the buffer that it is written over.
pub record Progress : Type 0 where
  pub next : Field
  pub written : List ℕ
  pub buffer : List ℕ

abbrev pub progress : Field → List ℕ → List ℕ → Progress
progress f xs b = record { next = f; written = xs; buffer = b }

abbrev pub parsed : {C : Type 0} → Calls C → List ℕ → C
parsed g b = g.verify_message (g.initialize b)

pub record PacketLaws {C : Type 0} (g : Calls C) : Type 0 where
  pub view : C → Progress
  pub initialize_lem : (b : List ℕ) → view (g.initialize b) ≡ progress action_field [] b
  pub set_action_lem :
      (a : Action) (c : C) (xs b : List ℕ)
      → view c ≡ progress action_field xs b
      → view (g.set_action a c) ≡ progress kind_field (xs ++ action_code a ∷ []) b
  pub set_kind_lem :
      (a : Kind) (c : C) (xs b : List ℕ)
      → view c ≡ progress kind_field xs b
      → view (g.set_kind a c) ≡ progress name_length_field (xs ++ kind_code a ∷ []) b
  pub set_name_length_lem :
      (n : ℕ) (c : C) (xs b : List ℕ)
      → n < 256
      → view c ≡ progress name_length_field xs b
      → view (g.set_name_length n c)
        ≡ progress (if ltb 0 n then name_field n else label_length_field) (xs ++ n ∷ []) b
  pub set_name_lem :
      (f : ℕ → List ℕ) (n : ℕ) (c : C) (xs b : List ℕ)
      → length (f n) ≡ n
      → view c ≡ progress (name_field n) xs b
      → view (g.set_name f c) ≡ progress label_length_field (xs ++ f n) b
  pub set_label_length_lem :
      (n : ℕ) (c : C) (xs b : List ℕ)
      → n < 256
      → view c ≡ progress label_length_field xs b
      → view (g.set_label_length n c)
        ≡ progress (if ltb 0 n then label_field n else final_field) (xs ++ n ∷ []) b
  pub set_label_lem :
      (f : ℕ → List ℕ) (n : ℕ) (c : C) (xs b : List ℕ)
      → length (f n) ≡ n
      → view c ≡ progress (label_field n) xs b
      → view (g.set_label f c) ≡ progress final_field (xs ++ f n) b
  pub take_buffer_lem :
      (c : C) (xs b : List ℕ)
      → view c ≡ progress final_field xs b
      → length xs ≤ length b
      → g.take_buffer c ≡ overlay xs b
  pub invalid_lem : (b : List ℕ) → decode b ≡ none → g.structural_valid_message (parsed g b) ≡ false
  pub valid_lem :
      (b : List ℕ) (p : Packet)
      → decode b ≡ some p
      → (g.structural_valid_message (parsed g b) ≡ true)
        × (g.get_action (parsed g b) ≡ p.action)
        × (g.get_kind (parsed g b) ≡ p.kind)
        × (g.get_name_length (parsed g b) ≡ length p.name)
        × (g.get_label_length (parsed g b) ≡ length p.label)
  pub name_lem :
      (b : List ℕ) (p : Packet)
      → decode b ≡ some p
      → ltb 0 (length p.name) ≡ true
      → (g.present_name (parsed g b) ≡ true) × (g.get_name (parsed g b) ≡ p.name)
  pub label_lem :
      (b : List ℕ) (p : Packet)
      → decode b ≡ some p
      → ltb 0 (length p.label) ≡ true
      → (g.present_label (parsed g b) ≡ true) × (g.get_label (parsed g b) ≡ p.label)
