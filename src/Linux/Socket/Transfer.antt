-- ===== src/Linux/Socket/Transfer.antt =====
-- What a reader gets of what a writer sent.
use ada_interfaces.Base.{
  ◌≢◌, ◌⊎◌, inl, inr, drop, length-map, length-take, suc, zero, ◌+◌, ◌++◌, [], map, false, sym, ap,
  ◌∙◌, ℕ, ◌*◌, ◌≤◌, ◌<◌, ◌≡◌, refl, true, some, List, ◌∷◌, length, take, ltb, get_elem?, min, arith,
  ℤ, pos, is_neg, of_bool, if◌then◌else◌,
}
use ada_interfaces.Linux.Socket.{
  rights, gneiss_write_message, Calls, Flags, no_fd, invalidate, overlay, store_rights, is_rights,
  read_message, copy,
}
use ada_interfaces.Linux.Socket.Words.{AreWords, bytes, words}
use ada_interfaces.Linux.Socket.Laws.{packet, rights_control, Packet, SocketLaws}
use ada_interfaces.Linux.Socket.Rights.{
  length-invalidate, copy-exact, copy-stale, get_elem?-invalidate,
}

empty-cases : (xs : List ℕ) → (xs ≡ []) ⊎ (xs ≢ [])
empty-cases [] = inl refl
empty-cases (x ∷ xs) = inr (λ e. cc e)

-- The array without any place.
invalidate_none : (num : ℕ) (fds : List ℕ) → length fds ≡ num → num ≡ 0 → invalidate num fds ≡ []
unfolding invalidate
invalidate_none num [] h e = rw e refl
invalidate_none num (x ∷ xs) h e = absurd (omega arith)

module _ {W : Type 0} (k : Calls W) where
  -- A control message with the right level and type is copied, up to the header's own length too
  -- far.
  store_rights-some :
      (num n : ℕ) (content fds : List ℕ)
      → store_rights k
          (some (record {
            cmsg_len = n;
            cmsg_level = k.sol_socket;
            cmsg_type = k.scm_rights;
            content = content;
          }))
          num
          fds
        ≡ copy (min (4 * num) n) content fds
  unfolding store_rights is_rights
  store_rights-some num n content fds = ground arith

  -- A read that fails reports length 0 and leaves -1 in every place of the array; the buffer and
  -- the truncation flag keep what they held.
  pub read_message-failed :
      (sock : ℤ) (msg : List ℕ) (size : ℕ) (fds : List ℕ) (num : ℕ) (trunc : ℤ) (f : Flags)
      (stack : List ℕ) (w : W)
      → is_neg (k.recvmsg sock size (k.cmsg_space (4 * num)) stack f w).0.result ≡ true
      → num ≤ length fds
      → let r = (read_message k sock msg size fds num trunc f stack w).0 in
        (r.length ≡ pos 0)
        × (r.msg ≡ msg)
        × (r.trunc ≡ trunc)
        × ((i : ℕ) → i < num → get_elem? r.fds i ≡ some no_fd)
  unfolding read_message
  read_message-failed sock msg size fds num trunc f stack w bad room =
      rw bad (refl, refl, refl, λ i h. get_elem?-invalidate num i fds h room)

module _ {W : Type 0} (k : Calls W) (t : SocketLaws k) where
  -- The bytes of the oldest message, its length and whether it was cut.
  pub read_message-payload :
      (sock : ℤ) (msg : List ℕ) (size : ℕ) (fds : List ℕ) (num : ℕ) (trunc : ℤ) (f : Flags)
      (stack : List ℕ) (w : W) (p : Packet) (ps : List Packet)
      → t.pending sock w ≡ p ∷ ps
      → f.trunc ≡ true
      → let r = read_message k sock msg size fds num trunc f stack w in
        (r.0.length ≡ pos (length p.payload))
        × (r.0.msg ≡ overlay (take size p.payload) msg)
        × (r.0.trunc ≡ of_bool (ltb size (length p.payload)))
        × (t.pending sock r.1 ≡ (if f.peek then p ∷ ps else ps))
        × (r ≡ (
          record {
            msg = overlay (take size p.payload) msg;
            fds =
                store_rights k
                  (k.recvmsg sock size (k.cmsg_space (4 * num)) stack f w).0.control
                  num
                  (invalidate num fds);
            length = pos (length p.payload);
            trunc = of_bool (ltb size (length p.payload));
          },
          (k.recvmsg sock size (k.cmsg_space (4 * num)) stack f w).1,
        ))
  unfolding read_message
  read_message-payload sock msg size fds num trunc f stack w p ps e ft =
      let r = t.recv_payload sock size (k.cmsg_space (4 * num)) stack f w p ps e ft in
      rw (r.0, r.1, r.2) (refl, refl, refl, r.3, refl)

  -- The kernel takes the message that gneiss_write_message hands it.
  abbrev pub Sends : ℤ → List ℕ → ℕ → List ℕ → ℕ → W → Type 0
  Sends sock msg size fds num w =
      is_neg (k.sendmsg sock (record { payload = take size msg; control = rights k fds num }) w).0
      ≡ false

  send_rights-num :
      (sock : ℤ) (payload fds : List ℕ) (num : ℕ) (w : W)
      → AreWords fds
      → length fds ≡ num
      → let r =
          k.sendmsg sock
            (record { payload = payload; control = some (rights_control k num (bytes fds)) })
            w in
        is_neg r.0 ≡ false
        → t.pending (t.peer sock) r.1
          ≡ t.pending (t.peer sock) w ++ packet payload (map (λ n. t.file sock n w) fds) ∷ []
  send_rights-num sock payload fds num w a e = rw (← e) (t.send_rights sock payload fds w a)

  -- A message that is taken waits at the other end behind those that were there: its first `size`
  -- bytes, and the files of its first `num` descriptors.
  pub gneiss_write_message-pending :
      (sock : ℤ) (msg : List ℕ) (size : ℕ) (fds : List ℕ) (num : ℕ) (w : W)
      → num ≤ length fds
      → AreWords (take num fds)
      → Sends sock msg size fds num w
      → t.pending (t.peer sock) (gneiss_write_message k sock msg size fds num w).1
        ≡ t.pending (t.peer sock) w
          ++ packet (take size msg) (map (λ n. t.file sock n w) (take num fds)) ∷ []
  unfolding gneiss_write_message rights
  gneiss_write_message-pending sock msg size fds zero w room a sent =
      rw sent (t.send_none sock (take size msg) w sent)
  gneiss_write_message-pending sock msg size fds (suc num) w room a sent =
      let lt : ltb 0 (suc num) ≡ true = ground arith in
      let taken = rw lt at sent in
      rw (lt, taken)
        (send_rights-num sock (take size msg) (take (suc num) fds) (suc num) w a
          (omega (arith, length-take (suc num) fds)) taken)

  -- The array after a read of a message with files: the numbers that the kernel installed, copied
  -- over the reset array.
  read_message-rights :
      (sock : ℤ) (msg : List ℕ) (size : ℕ) (fds : List ℕ) (num : ℕ) (trunc : ℤ) (f : Flags)
      (stack : List ℕ) (w : W) (p : Packet) (ps : List Packet)
      → t.pending sock w ≡ p ∷ ps
      → f.trunc ≡ true
      → p.files ≢ []
      → length p.files ≤ num
      → let r = read_message k sock msg size fds num trunc f stack w in
        (ins : List ℕ) × AreWords ins
        × (map (λ n. t.file sock n r.1) ins ≡ p.files)
        × (r.0.fds
            ≡ copy
                (min (4 * num) (t.cmsg_header + 4 * length ins))
                (bytes ins ++ drop (4 * length ins) stack)
                (invalidate num fds))
  read_message-rights sock msg size fds num trunc f stack w p ps e ft ne fits =
      let space = k.cmsg_space (4 * num) in
      let (ins, a, m, c) =
        t.recv_rights sock size space stack f w p ps e ne
          (omega (arith, t.cmsg_len_lem (4 * length p.files), t.cmsg_space_le (4 * num))) in
      let r = (read_message-payload sock msg size fds num trunc f stack w p ps e ft).4 in
      (ins, a, rw r m, rw (r, c, store_rights-some, t.cmsg_len_lem (4 * length ins)))

  -- As many descriptors as there is room for: the array stands for the files that were sent.
  pub read_message-exact :
      (sock : ℤ) (msg : List ℕ) (size : ℕ) (fds : List ℕ) (num : ℕ) (trunc : ℤ) (f : Flags)
      (stack : List ℕ) (w : W) (p : Packet) (ps : List Packet)
      → t.pending sock w ≡ p ∷ ps
      → f.trunc ≡ true
      → p.files ≢ []
      → length p.files ≡ num
      → length fds ≡ num
      → let r = read_message k sock msg size fds num trunc f stack w in
        map (λ n. t.file sock n r.1) r.0.fds ≡ p.files
  read_message-exact sock msg size fds num trunc f stack w p ps e ft ne full room =
      let (ins, a, m, c) =
        read_message-rights sock msg size fds num trunc f stack w p ps e ft ne (omega arith) in
      let file =
        λ (n : ℕ). t.file sock n (read_message k sock msg size fds num trunc f stack w).1 in
      let count : length ins ≡ num = sym (length-map ins file) ∙ ap length m ∙ full in
      rw
        (
          c,
          copy-exact (min (4 * num) (t.cmsg_header + 4 * length ins)) ins _ (invalidate num fds) a
              (omega (arith, length-invalidate num fds)) (omega arith),
        )
        m

  -- The same for a message with or without descriptors.
  pub read_message-files :
      (sock : ℤ) (msg : List ℕ) (size : ℕ) (fds : List ℕ) (num : ℕ) (trunc : ℤ) (f : Flags)
      (stack : List ℕ) (w : W) (p : Packet) (ps : List Packet)
      → t.pending sock w ≡ p ∷ ps
      → f.trunc ≡ true
      → length p.files ≡ num
      → length fds ≡ num
      → let r = read_message k sock msg size fds num trunc f stack w in
        map (λ n. t.file sock n r.1) r.0.fds ≡ p.files
  unfolding store_rights
  read_message-files sock msg size fds num trunc f stack w p ps e ft full room =
      elim (empty-cases p.files) [
        | inl none ↦
            let no_room : num ≡ 0 = sym full ∙ ap length none in
            rw
              (
                (read_message-payload sock msg size fds num trunc f stack w p ps e ft).4,
                t.recv_none sock size (k.cmsg_space (4 * num)) stack f w p ps e none,
                invalidate_none num fds room no_room,
              )
              (sym none)
        | inr ne ↦ read_message-exact sock msg size fds num trunc f stack w p ps e ft ne full room
      ]

  -- Fewer descriptors than there is room for: the memcpy goes on behind them, since `cmsg_len`
  -- counts the header too, and the next place of the array holds whatever word the control buffer
  -- held there when the function was entered, instead of -1.
  pub read_message-stale :
      (sock : ℤ) (msg : List ℕ) (size : ℕ) (fds : List ℕ) (num : ℕ) (trunc : ℤ) (f : Flags)
      (stack : List ℕ) (w : W) (p : Packet) (ps : List Packet)
      → t.pending sock w ≡ p ∷ ps
      → f.trunc ≡ true
      → p.files ≢ []
      → length p.files < num
      → 4 * num ≤ length stack
      → get_elem? (read_message k sock msg size fds num trunc f stack w).0.fds (length p.files)
        ≡ get_elem? (words stack) (length p.files)
  read_message-stale sock msg size fds num trunc f stack w p ps e ft ne fewer room =
      let (ins, a, m, c) =
        read_message-rights sock msg size fds num trunc f stack w p ps e ft ne (omega arith) in
      let file =
        λ (n : ℕ). t.file sock n (read_message k sock msg size fds num trunc f stack w).1 in
      let count : length ins ≡ length p.files = sym (length-map ins file) ∙ ap length m in
      rw (c, ← count)
        (copy-stale (min (4 * num) (t.cmsg_header + 4 * length ins)) ins stack _
          (omega (arith, t.cmsg_header_le)) (omega arith))

  -- No descriptors: every place of the array is -1.
  pub read_message-none :
      (sock : ℤ) (msg : List ℕ) (size : ℕ) (fds : List ℕ) (num : ℕ) (trunc : ℤ) (f : Flags)
      (stack : List ℕ) (w : W) (p : Packet) (ps : List Packet)
      → t.pending sock w ≡ p ∷ ps
      → f.trunc ≡ true
      → p.files ≡ []
      → num ≤ length fds
      → (i : ℕ) → i < num
      → get_elem? (read_message k sock msg size fds num trunc f stack w).0.fds i ≡ some no_fd
  unfolding store_rights
  read_message-none sock msg size fds num trunc f stack w p ps e ft ne room i h =
      rw
        (
          (read_message-payload sock msg size fds num trunc f stack w p ps e ft).4,
          t.recv_none sock size (k.cmsg_space (4 * num)) stack f w p ps e ne,
        )
        (get_elem?-invalidate num i fds h room)
