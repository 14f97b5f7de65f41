-- ===== src/Genode/Block/Client/Packets.antt =====
-- The packets of a block client and the space in its buffer.
use native.Mathlib.Decide.{ℕ_discrete}
use ada_interfaces.Base.{
  ℕ, ◌*◌, ◌%◌, ◌^◌, ◌≡◌, ◌≢◌, ◌⊎◌, refl, Bool, true, false, Option, none, some, ◌∙◌, sym,
  Option-cases, inl, inr, ℤ, pos,
}
use ada_interfaces.Genode.Block.Client.{
  Packet, Client, Calls, is_transfer, describe, allocated, allocate_request, release,
}

-- `taken d o w` says that the bytes at offset `o` in the buffer of device `d` belong to a packet.
pub record PacketLaws {W : Type 0} (k : Calls W) : Type 0 where
  pub taken : Option ℕ → ℕ → W → Bool
  pub alloc_fresh :
      (d : Option ℕ) (n : ℕ) (p : Packet) (w : W)
      → (k.alloc_packet d n w).0 ≡ some p
      → (p.bytes ≡ n)
        × (taken d p.offset w ≡ false)
        × (taken d p.offset (k.alloc_packet d n w).1 ≡ true)
        × ((o : ℕ) → o ≢ p.offset → taken d o (k.alloc_packet d n w).1 ≡ taken d o w)
  pub alloc_failed :
      (d : Option ℕ) (n o : ℕ) (w : W)
      → (k.alloc_packet d n w).0 ≡ none
      → taken d o (k.alloc_packet d n w).1 ≡ taken d o w
  pub release_self :
      (d : Option ℕ) (p : Packet) (w : W) → taken d p.offset (k.release_packet d p w).1 ≡ false
  pub release_other :
      (d : Option ℕ) (p : Packet) (o : ℕ) (w : W)
      → o ≢ p.offset
      → taken d o (k.release_packet d p w).1 ≡ taken d o w

module _ {W : Type 0} (k : Calls W) (t : PacketLaws k) (client : Client) where
  -- The space that allocate_request asks for.
  abbrev pub space : ℕ → ℕ
  space length = (client.block_size * length) % 2 ^ 64

  allocate-some :
      (request p : Packet) (opcode : ℤ) (start length tag : ℕ) (w : W)
      → is_transfer opcode ≡ true
      → (k.alloc_packet client.device (space length) w).0 ≡ some p
      → allocate_request k client request opcode start length tag w ≡ (
        (describe p opcode start length tag, pos 0),
        (k.alloc_packet client.device (space length) w).1,
      )
  unfolding allocate_request allocated
  allocate-some request p opcode start length tag w transfer e = rw (transfer, e) refl

  allocate-none :
      (request : Packet) (opcode : ℤ) (start length tag : ℕ) (w : W)
      → is_transfer opcode ≡ true
      → (k.alloc_packet client.device (space length) w).0 ≡ none
      → allocate_request k client request opcode start length tag w
        ≡ ((request, pos 1), (k.alloc_packet client.device (space length) w).1)
  unfolding allocate_request allocated
  allocate-none request opcode start length tag w transfer e = rw (transfer, e) refl

  freed :
      (request p : Packet) (opcode : ℤ) (start length tag o : ℕ) (w : W)
      → is_transfer opcode ≡ true
      → (k.alloc_packet client.device (space length) w).0 ≡ some p
      → t.taken client.device o
          (release k client
            (describe p opcode start length tag)
            (k.alloc_packet client.device (space length) w).1).1
        ≡ t.taken client.device o w
  unfolding release describe
  freed request p opcode start length tag o w transfer e =
      let d = describe p opcode start length tag in
      let fresh = t.alloc_fresh client.device (space length) p w e in
      rw transfer (elim (ℕ_discrete o p.offset) [
        | yes same ↦ rw same (t.release_self client.device d _ ∙ sym fresh.1)
        | no other ↦ t.release_other client.device d o _ other ∙ fresh.3 o other
      ])

  -- For a read or a write, allocate_request either reports 0 and gives a packet with the operation,
  -- the first block, the number of blocks and the tag of the transfer, not yet successful, with as
  -- many bytes as its blocks (in 64 bits), at an offset where the space was free, all of which a
  -- later release gives back; or it reports 1, leaves the request as it was, and takes no space.
  pub release-allocate_request :
      (request : Packet) (opcode : ℤ) (start length tag : ℕ) (w : W)
      → is_transfer opcode ≡ true
      → let s = allocate_request k client request opcode start length tag w in
        ((s.0.1 ≡ pos 0)
          × (s.0.0.opcode ≡ opcode)
          × (s.0.0.block_number ≡ start)
          × (s.0.0.block_count ≡ length)
          × (s.0.0.tag ≡ tag)
          × (s.0.0.success ≡ false)
          × (s.0.0.bytes ≡ space length)
          × (t.taken client.device s.0.0.offset w ≡ false)
          × (t.taken client.device s.0.0.offset s.1 ≡ true)
          × ((o : ℕ)
              → t.taken client.device o (release k client s.0.0 s.1).1 ≡ t.taken client.device o w))
        ⊎ ((s.0 ≡ (request, pos 1))
            × ((o : ℕ) → t.taken client.device o s.1 ≡ t.taken client.device o w))
  unfolding describe
  release-allocate_request request opcode start length tag w transfer =
      elim (Option-cases (k.alloc_packet client.device (space length) w).0) [
        | inl e ↦
            rw (allocate-none request opcode start length tag w transfer e)
              (inr (refl, λ o. t.alloc_failed client.device (space length) o w e))
        | inr (p, e) ↦
            let fresh = t.alloc_fresh client.device (space length) p w e in
            rw (allocate-some request p opcode start length tag w transfer e) (
              inl (
                refl,
                refl,
                refl,
                refl,
                refl,
                refl,
                fresh.0,
                fresh.1,
                fresh.2,
                λ o. freed request p opcode start length tag o w transfer e,
              ))
      ]
