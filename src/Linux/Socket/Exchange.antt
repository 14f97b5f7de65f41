-- ===== src/Linux/Socket/Exchange.antt =====
-- A message from one end of a socket pair to the other.
use ada_interfaces.Base.{
  not, ℕ, ◌≡◌, refl, sym, ◌∙◌, Bool, true, false, List, [], ◌∷◌, map, length, take, ltb, arith, ℤ,
  pos, of_bool, take_all, length-map,
}
use ada_interfaces.Linux.Socket.{
  Calls, Flags, overlay, gneiss_write_message, gneiss_peek_message, gneiss_read_message,
  gneiss_drop_message,
}
use ada_interfaces.Linux.Socket.Words.{AreWords}
use ada_interfaces.Linux.Socket.Laws.{packet, Packet, SocketLaws}
use ada_interfaces.Linux.Socket.Transfer.{
  Sends, gneiss_write_message-pending, read_message-payload, read_message-files,
}

module _ {W : Type 0} (k : Calls W) (t : SocketLaws k) where
  write-idle :
      (sock : ℤ) (msg fds : List ℕ) (w : W)
      → t.pending (t.peer sock) w ≡ []
      → AreWords fds
      → Sends k t sock msg (length msg) fds (length fds) w
      → t.pending (t.peer sock) (gneiss_write_message k sock msg (length msg) fds (length fds) w).1
        ≡ packet msg (map (λ n. t.file sock n w) fds) ∷ []
  write-idle sock msg fds w idle a sent =
      let all : take (length fds) fds ≡ fds = take_all (length fds) fds (omega arith) in
      rw
        (
          gneiss_write_message-pending k t sock msg (length msg) fds (length fds) w (omega arith)
              (rw all a) sent,
          idle,
          all,
          take_all (length msg) msg (omega arith),
        )
        refl

  -- What gneiss_write_message sends over an idle pair, with descriptors or without, if the kernel
  -- takes it and the descriptors are 32-bit words, a gneiss_read_message with room for exactly as
  -- many descriptors receives: the bytes as far as the reader's buffer goes, the full length,
  -- whether it was cut, and numbers for the same open files in the same order; the pair is idle
  -- again.
  pub gneiss_read_message-gneiss_write_message :
      (sock : ℤ) (msg fds : List ℕ) (w : W) (buffer : List ℕ) (size : ℕ) (slots : List ℕ)
      (trunc : ℤ) (block : Bool) (stack : List ℕ)
      → t.pending (t.peer sock) w ≡ []
      → AreWords fds
      → length slots ≡ length fds
      → Sends k t sock msg (length msg) fds (length fds) w
      → let w' = (gneiss_write_message k sock msg (length msg) fds (length fds) w).1 in
        let r =
          gneiss_read_message k (t.peer sock) buffer size slots (length fds) trunc block stack w' in
        (r.0.msg ≡ overlay (take size msg) buffer)
        × (r.0.length ≡ pos (length msg))
        × (r.0.trunc ≡ of_bool (ltb size (length msg)))
        × (map (λ n. t.file (t.peer sock) n r.1) r.0.fds ≡ map (λ n. t.file sock n w) fds)
        × (t.pending (t.peer sock) r.1 ≡ [])
  unfolding gneiss_read_message
  gneiss_read_message-gneiss_write_message sock msg fds w buffer size slots trunc block stack idle a
        room sent =
      let f : Flags = record { peek = false; trunc = true; dontwait = not block } in
      let p : Packet = packet msg (map (λ n. t.file sock n w) fds) in
      let w' = (gneiss_write_message k sock msg (length msg) fds (length fds) w).1 in
      let waits = write-idle sock msg fds w idle a sent in
      let r =
        read_message-payload k t (t.peer sock) buffer size slots (length fds) trunc f stack w' p []
          waits refl in
      (
        r.1,
        r.0,
        r.2,
        read_message-files k t (t.peer sock) buffer size slots (length fds) trunc f stack w' p []
            waits refl (length-map fds (λ n. t.file sock n w)) room,
        r.3,
      )

  gneiss_drop_message-pending :
      (sock : ℤ) (stack : List ℕ) (w : W) (p : Packet) (ps : List Packet)
      → t.pending sock w ≡ p ∷ ps
      → t.pending sock (gneiss_drop_message k sock stack w).1 ≡ ps
  unfolding gneiss_drop_message
  gneiss_drop_message-pending sock stack w p ps e =
      let f : Flags = record { peek = false; trunc = true; dontwait = false } in
      let r = t.recv_payload sock 0 (k.cmsg_space 4) stack f w p ps e refl in rw r.0 r.3

  -- With room for exactly the descriptors of the oldest message, peeking reports what a read after
  -- it reports of that message, its bytes as far as the buffer goes, its length and whether it was
  -- cut, and leaves it in the queue. Both fill the array with numbers for the files of the message,
  -- in its order. A read takes the message off, and so does a drop, and neither takes another one.
  pub gneiss_read_message-gneiss_peek_message :
      (sock : ℤ) (msg : List ℕ) (size : ℕ) (fds : List ℕ) (num : ℕ) (trunc : ℤ) (block : Bool)
      (stack : List ℕ) (w : W) (p : Packet) (ps : List Packet)
      → t.pending sock w ≡ p ∷ ps
      → length p.files ≡ num
      → length fds ≡ num
      → let seen = gneiss_peek_message k sock msg size fds num trunc stack w in
        let r = gneiss_read_message k sock msg size fds num trunc block stack seen.1 in
        (r.0.msg ≡ seen.0.msg)
        × (r.0.length ≡ seen.0.length)
        × (r.0.trunc ≡ seen.0.trunc)
        × (map (λ n. t.file sock n seen.1) seen.0.fds ≡ p.files)
        × (map (λ n. t.file sock n r.1) r.0.fds ≡ p.files)
        × (seen.0.msg ≡ overlay (take size p.payload) msg)
        × (seen.0.length ≡ pos (length p.payload))
        × (t.pending sock seen.1 ≡ p ∷ ps)
        × (t.pending sock r.1 ≡ ps)
        × (t.pending sock (gneiss_drop_message k sock stack seen.1).1 ≡ ps)
  unfolding gneiss_read_message gneiss_peek_message
  gneiss_read_message-gneiss_peek_message sock msg size fds num trunc block stack w p ps e full
        room =
      let f : Flags = record { peek = true; trunc = true; dontwait = true } in
      let g : Flags = record { peek = false; trunc = true; dontwait = not block } in
      let seen = read_message-payload k t sock msg size fds num trunc f stack w p ps e refl in
      let r = read_message-payload k t sock msg size fds num trunc g stack _ p ps seen.3 refl in
      (
        r.1 ∙ sym seen.1,
        r.0 ∙ sym seen.0,
        r.2 ∙ sym seen.2,
        read_message-files k t sock msg size fds num trunc f stack w p ps e refl full room,
        read_message-files k t sock msg size fds num trunc g stack _ p ps seen.3 refl full room,
        seen.1,
        seen.0,
        seen.3,
        r.3,
        gneiss_drop_message-pending sock stack _ p ps seen.3,
      )
