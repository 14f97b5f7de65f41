-- ===== src/Linux/Packet/Delivery.antt =====
-- What `Receive` gets of what `Send` sent (src/platform/linux/gneiss_internal-packet.adb).
use ada_interfaces.Base.{
  ℕ, ◌+◌, ◌≤◌, ◌<◌, ◌≡◌, ◌≢◌, refl, ap₂, not, ◌∙◌, Bool, true, false, some, List, [], ◌∷◌, ◌++◌,
  map, length, take, arith, ℤ, length-map, take_all, take_left, drop, get_elem?,
}
use ada_interfaces.Linux.Socket as Socket
use ada_interfaces.Linux.Socket.{overlay, Flags, read_message, gneiss_read_message, no_fd}
use ada_interfaces.Linux.Socket.Words.{AreWords}
use ada_interfaces.Linux.Socket.Laws.{packet, SocketLaws}
use ada_interfaces.Linux.Socket.Laws as Laws
use ada_interfaces.Linux.Socket.Transfer.{
  Sends, gneiss_write_message-pending, read_message-payload, read_message-exact, read_message-none,
}
use ada_interfaces.Linux.Packet.{SessionLabel, written_packet, send, receive}
use ada_interfaces.Linux.Packet.Format.{Action, Kind, Packet, encode, decode-encode, length-encode}
use ada_interfaces.Linux.Packet.Interface.{Calls, PacketLaws}
use ada_interfaces.Linux.Packet.Fields.{IsLabel, length-contents}
use ada_interfaces.Linux.Packet.Written.{packet_of, written_packet-encode}
use ada_interfaces.Linux.Packet.Parsed.{Reports, parsed_message-Reports}

pub map-ne-nil : (f : ℕ → ℕ) (xs : List ℕ) → xs ≢ [] → map f xs ≢ []
map-ne-nil f [] ne e = ne refl
map-ne-nil f (x ∷ xs) ne e = cc

module _ {C W : Type 0} (g : Calls C) (k : Socket.Calls W) (l : PacketLaws g)
    (t : SocketLaws k) where
  -- The kernel takes the packet that `Send` hands it.
  abbrev pub Accepted :
      List ℕ → ℤ → Action → Kind → SessionLabel → SessionLabel → List ℕ → W → Type 0
  Accepted buffer fd action kind name label fds w =
      Sends k t fd (written_packet g buffer action kind name label) (4 + name.last + label.last) fds
        (length fds) w

  -- A packet that is taken waits at the other end behind those that were there, with the files.
  pub send-pending :
      (buffer : List ℕ) (fd : ℤ) (action : Action) (kind : Kind) (name label : SessionLabel)
      (fds : List ℕ) (w : W)
      → length buffer ≡ 1024
      → IsLabel name
      → IsLabel label
      → AreWords fds
      → Accepted buffer fd action kind name label fds w
      → t.pending (t.peer fd) (send g k buffer fd action kind name label fds w).1
        ≡ t.pending (t.peer fd) w
          ++ packet (encode (packet_of action kind name label)) (map (λ n. t.file fd n w) fds) ∷ []
  unfolding send
  send-pending buffer fd action kind name label fds w room an al a sent =
      let p = packet_of action kind name label in
      let size : 4 + name.last + label.last ≡ length (encode p) =
        omega (arith, length-encode p, length-contents name an, length-contents label al) in
      let all : take (length fds) fds ≡ fds = take_all (length fds) fds (omega arith) in
      let taken : take (4 + name.last + label.last) (written_packet g buffer action kind name label)
          ≡ encode p =
        rw (written_packet-encode g l buffer action kind name label an al room, size, take_left)
          refl in
      gneiss_write_message-pending k t fd (written_packet g buffer action kind name label)
        (4 + name.last + label.last) fds (length fds) w (omega arith) (rw all a) sent
      ∙ ap₂
          (λ bytes numbers.
            t.pending (t.peer fd) w ++ packet bytes (map (λ n. t.file fd n w) numbers) ∷ [])
          taken all

  encode_short :
      (p : Packet) → length p.name ≤ 255 → length p.label ≤ 255 → length (encode p) ≤ 1024
  encode_short p fn fl = omega (arith, length-encode p, fn, fl)

  -- The oldest packet is reported, whatever the reader's buffer held, and it is taken off.
  pub receive-Reports :
      (buffer : List ℕ) (fd : ℤ) (fds : List ℕ) (trunc : ℤ) (block : Bool) (stack : List ℕ) (w : W)
      (p : Packet) (files : List ℕ) (ps : List Laws.Packet)
      → length buffer ≡ 1024
      → length p.name ≤ 255
      → length p.label ≤ 255
      → t.pending fd w ≡ packet (encode p) files ∷ ps
      → let r = receive g k buffer fd fds trunc block stack w in
        Reports r.0.0 p × (t.pending fd r.1 ≡ ps)
  unfolding receive gneiss_read_message
  receive-Reports buffer fd fds trunc block stack w p files ps room fn fl e =
      let f : Flags = record { peek = false; trunc = true; dontwait = not block } in
      let r =
        read_message-payload k t fd buffer (length buffer) fds (length fds) trunc f stack w
          (packet (encode p) files) ps e refl in
      let whole : take (length buffer) (encode p) ≡ encode p =
        take_all (length buffer) (encode p) (omega (arith, encode_short p fn fl)) in
      let bytes : (read_message k fd buffer (length buffer) fds (length fds) trunc f stack w).0.msg
          ≡ overlay (encode p) buffer =
        rw whole at r.1 in
      rw (r.0, bytes)
        (
          parsed_message-Reports g l (length (encode p)) (overlay (encode p) buffer) p
              (omega (arith, length-encode p)) (decode-encode p (drop (length (encode p)) buffer))
              fn fl,
          r.3,
        )

  -- With room for as many descriptors as come, the array stands for their files.
  pub receive-files :
      (buffer : List ℕ) (fd : ℤ) (fds : List ℕ) (trunc : ℤ) (block : Bool) (stack : List ℕ) (w : W)
      (p : Laws.Packet) (ps : List Laws.Packet)
      → t.pending fd w ≡ p ∷ ps
      → p.files ≢ []
      → length p.files ≡ length fds
      → let r = receive g k buffer fd fds trunc block stack w in
        map (λ n. t.file fd n r.1) r.0.1 ≡ p.files
  unfolding receive gneiss_read_message
  receive-files buffer fd fds trunc block stack w p ps e ne full =
      read_message-exact k t fd buffer (length buffer) fds (length fds) trunc
        (record { peek = false; trunc = true; dontwait = not block }) stack w p ps e refl ne full
        refl

  -- A packet without descriptors leaves -1 in every place of the array.
  pub receive-no_fd :
      (buffer : List ℕ) (fd : ℤ) (fds : List ℕ) (trunc : ℤ) (block : Bool) (stack : List ℕ) (w : W)
      (p : Laws.Packet) (ps : List Laws.Packet)
      → t.pending fd w ≡ p ∷ ps
      → p.files ≡ []
      → (i : ℕ) → i < length fds
      → get_elem? (receive g k buffer fd fds trunc block stack w).0.1 i ≡ some no_fd
  unfolding receive gneiss_read_message
  receive-no_fd buffer fd fds trunc block stack w p ps e ne i h =
      read_message-none k t fd buffer (length buffer) fds (length fds) trunc
        (record { peek = false; trunc = true; dontwait = not block }) stack w p ps e refl ne
        (omega arith) i h

  -- A packet that the kernel takes, over an idle pair, with at least one descriptor and labels
  -- within their 255 characters, is received as it was meant with room for as many descriptors,
  -- whatever the two buffers held: a valid message with the action, the kind, the name and the
  -- label, and numbers for the same open files; the pair is idle again.
  pub receive-send :
      (buffer : List ℕ) (fd : ℤ) (action : Action) (kind : Kind) (name label : SessionLabel)
      (fds : List ℕ) (w : W) (stale : List ℕ) (slots : List ℕ) (trunc : ℤ) (block : Bool)
      (stack : List ℕ)
      → length buffer ≡ 1024
      → length stale ≡ 1024
      → IsLabel name
      → IsLabel label
      → AreWords fds
      → fds ≢ []
      → length slots ≡ length fds
      → t.pending (t.peer fd) w ≡ []
      → Accepted buffer fd action kind name label fds w
      → let w' = (send g k buffer fd action kind name label fds w).1 in
        let r = receive g k stale (t.peer fd) slots trunc block stack w' in
        Reports r.0.0 (packet_of action kind name label)
        × (map (λ n. t.file (t.peer fd) n r.1) r.0.1 ≡ map (λ n. t.file fd n w) fds)
        × (t.pending (t.peer fd) r.1 ≡ [])
  receive-send buffer fd action kind name label fds w stale slots trunc block stack room room' an al
        a ne space idle sent =
      let p = packet_of action kind name label in
      let sends = send-pending buffer fd action kind name label fds w room an al a sent in
      let waits = rw idle at sends in
      let got =
        receive-Reports stale (t.peer fd) slots trunc block stack _ p _ [] room'
          (omega (arith, length-contents name an, an.0))
          (omega (arith, length-contents label al, al.0)) waits in
      let count = length-map fds (λ n. t.file fd n w) in
      let files =
        receive-files stale (t.peer fd) slots trunc block stack _ _ [] waits
          (map-ne-nil (λ n. t.file fd n w) fds ne) (omega (arith, count, space)) in
      (got.0, files, got.1)
