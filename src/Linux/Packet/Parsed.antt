-- ===== src/Linux/Packet/Parsed.antt =====
-- What `Receive` makes of a buffer (src/platform/linux/gneiss_internal-packet.adb).
use ada_interfaces.Base.{
  ℕ, ◌≤◌, ◌<◌, ◌≡◌, ◌⊎◌, refl, true, false, inl, inr, Option, none, some, List, [], ◌∷◌, length,
  ltb, ◌==◌, arith,
}
use ada_interfaces.Linux.Packet.{
  BrokerMessage, blank_label, contents, parsed_name, parsed_label, parsed_message,
}
use ada_interfaces.Linux.Packet.Format.{Packet, decode}
use ada_interfaces.Linux.Packet.Interface.{Calls, PacketLaws, parsed}
use ada_interfaces.Linux.Packet.Fields.{contents-get, blank_label-IsLabel}

nil_or : (xs : List ℕ) → (xs ≡ []) ⊎ (0 < length xs)
nil_or [] = inl refl
nil_or (x ∷ xs) = inr (omega arith)

-- What `Receive` reports of a packet.
abbrev pub Reports : Option BrokerMessage → Packet → Type 0
Reports got p =
    (m : BrokerMessage) × (got ≡ some m)
    × (m.action ≡ p.action)
    × (m.kind ≡ p.kind)
    × (contents m.name ≡ p.name)
    × (contents m.label ≡ p.label)

module _ {C : Type 0} (g : Calls C) (l : PacketLaws g) where
  contents-parsed_name :
      (b : List ℕ) (p : Packet)
      → decode b ≡ some p
      → length p.name ≤ 255
      → contents (parsed_name g (parsed g b)) ≡ p.name
  unfolding parsed_name
  contents-parsed_name b p e fits =
      let count = (l.valid_lem b p e).3 in
      elim (nil_or p.name) [
        | inl h ↦ rw (count, h) refl
        | inr h ↦
            let filled : ltb 0 (length p.name) ≡ true = ground arith in
            let (there, bytes) = l.name_lem b p e filled in
            rw (count, filled, there, bytes)
              (contents-get p.name blank_label h fits blank_label-IsLabel).0
      ]

  contents-parsed_label :
      (b : List ℕ) (p : Packet)
      → decode b ≡ some p
      → length p.label ≤ 255
      → contents (parsed_label g (parsed g b)) ≡ p.label
  unfolding parsed_label
  contents-parsed_label b p e fits =
      let count = (l.valid_lem b p e).4 in
      elim (nil_or p.label) [
        | inl h ↦ rw (count, h) refl
        | inr h ↦
            let filled : ltb 0 (length p.label) ≡ true = ground arith in
            let (there, bytes) = l.label_lem b p e filled in
            rw (count, filled, there, bytes)
              (contents-get p.label blank_label h fits blank_label-IsLabel).0
      ]

  pub parsed_message-Reports :
      (n : ℕ) (b : List ℕ) (p : Packet)
      → 0 < n
      → decode b ≡ some p
      → length p.name ≤ 255
      → length p.label ≤ 255
      → Reports (parsed_message g n b) p
  unfolding parsed_message
  parsed_message-Reports n b p h e fn fl =
      let nonzero : (n == 0) ≡ false = ground arith in
      let v = l.valid_lem b p e in
      rw (nonzero, v.0)
        (_, refl, v.1, v.2, contents-parsed_name b p e fn, contents-parsed_label b p e fl)

  pub parsed_message-invalid : (n : ℕ) (b : List ℕ) → decode b ≡ none → parsed_message g n b ≡ none
  unfolding parsed_message
  parsed_message-invalid n b e = rw (l.invalid_lem b e) (ground arith)
