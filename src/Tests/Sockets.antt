-- ===== src/Tests/Sockets.antt =====
-- A kernel with one packet queue, on which an open file is known by its descriptor number.
use mathlib.Core.List.{map-append}
use ada_interfaces.Linux.Socket.{
  gneiss_write_message, gneiss_read_message, gneiss_peek_message, gneiss_drop_message, read_message,
}
use ada_interfaces.Linux.Socket.Transfer.{read_message-stale}
use ada_interfaces.Linux.Socket.Exchange.{
  gneiss_read_message-gneiss_write_message, gneiss_read_message-gneiss_peek_message,
}
use ada_interfaces.Base.{
  get_elem?, ℕ, ◌+◌, ◌*◌, ◌%◌, ◌^◌, ◌≡◌, ◌≢◌, refl, sym, ap, ap₂, ◌∙◌, Bool, true, false, Option,
  none, some, List, [], ◌∷◌, ◌++◌, map, length, take, drop, ltb, if◌then◌else◌, pos, minus_one,
  arith,
}
use ada_interfaces.Linux.Socket.{Calls, Control, Incoming, Received, Flags}
use ada_interfaces.Linux.Socket.Words.{bytes, words, AreWords, words-bytes}
use ada_interfaces.Linux.Socket.Laws.{Packet, packet, rights_control, SocketLaws}

abbrev World : Type 0
World = List Packet

abbrev pub number : ℕ → ℕ
number n = n % 2 ^ 32

abbrev pub norm : Packet → Packet
norm p = packet p.payload (map number p.files)

abbrev pub files_of : Option Control → List ℕ
files_of none = []
files_of (some c) = words c.content

abbrev pub control_of : List ℕ → List ℕ → Option Control
control_of [] stack = none
control_of (f ∷ fs) stack = some (record {
  cmsg_len = 16 + 4 * length (f ∷ fs);
  cmsg_level = 1;
  cmsg_type = 1;
  content = bytes (f ∷ fs) ++ drop (4 * length (f ∷ fs)) stack;
})

abbrev pub receive : ℕ → List ℕ → Flags → World → Incoming × World
receive size stack f [] =
    (record { result = minus_one; payload = []; truncated = false; control = none }, [])
receive size stack f (p ∷ ps) = (
  record {
    result = pos (length p.payload);
    payload = take size p.payload;
    truncated = ltb size (length p.payload);
    control = control_of (map number p.files) stack;
  },
  if f.peek then p ∷ ps else ps,
)

abbrev kernel : Calls World
kernel = record {
  cmsg_len = λ n. 16 + n;
  cmsg_space = λ n. 16 + n;
  sol_socket = 1;
  scm_rights = 1;
  sendmsg = λ sock m w. (pos (length m.payload), w ++ packet m.payload (files_of m.control) ∷ []);
  recvmsg = λ sock size space stack f w. receive size stack f w;
  warn = λ c w. (tt, w);
}

pub number_again : (xs : List ℕ) → map number (map number xs) ≡ map number xs
number_again [] = refl
number_again (x ∷ xs) = ap₂ ◌∷◌ (omega arith) (number_again xs)

pub number-AreWords : (xs : List ℕ) → AreWords (map number xs)
number-AreWords [] = tt
number-AreWords (x ∷ xs) = (omega arith, number-AreWords xs)

norm_peek :
    (b : Bool) (p : Packet) (ps : World)
    → map norm (if b then p ∷ ps else ps) ≡ (if b then norm p ∷ map norm ps else map norm ps)
norm_peek true p ps = refl
norm_peek false p ps = refl

pub receive_payload :
    (size : ℕ) (stack : List ℕ) (f : Flags) (w : World) (p : Packet) (ps : List Packet)
    → map norm w ≡ p ∷ ps
    → let r = receive size stack f w in
      (r.0.result ≡ pos (length p.payload))
      × (r.0.payload ≡ take size p.payload)
      × (r.0.truncated ≡ ltb size (length p.payload))
      × (map norm r.1 ≡ (if f.peek then p ∷ ps else ps))
receive_payload size stack f [] p ps e = cc
receive_payload size stack f (q ∷ qs) p ps e =
    let h : norm q ≡ p = cc e in
    let t : map norm qs ≡ ps = cc e in rw (← h, ← t) (refl, refl, refl, norm_peek f.peek q qs)

pub receive-none :
    (size : ℕ) (stack : List ℕ) (f : Flags) (w : World) (p : Packet) (ps : List Packet)
    → map norm w ≡ p ∷ ps
    → p.files ≡ []
    → (receive size stack f w).0.control ≡ none
receive-none size stack f [] p ps e n = refl
receive-none size stack f (q ∷ qs) p ps e n =
    let h : map number q.files ≡ p.files = cc e in rw (h, n) refl

pub control_some :
    (fs stack : List ℕ)
    → fs ≢ []
    → control_of fs stack
      ≡ some (rights_control kernel (length fs) (bytes fs ++ drop (4 * length fs) stack))
control_some [] stack h = absurd (h refl)
control_some (f ∷ fs) stack h = refl

pub receive_rights :
    (size : ℕ) (stack : List ℕ) (f : Flags) (w : World) (p : Packet) (ps : List Packet)
    → map norm w ≡ p ∷ ps
    → p.files ≢ []
    → (fds : List ℕ) × AreWords fds
      × (map number fds ≡ p.files)
      × ((receive size stack f w).0.control
          ≡ some (rights_control kernel (length fds) (bytes fds ++ drop (4 * length fds) stack)))
receive_rights size stack f [] p ps e n = cc
receive_rights size stack f (q ∷ qs) p ps e n =
    let h : map number q.files ≡ p.files = cc e in
    (
      map number q.files,
      number-AreWords q.files,
      number_again q.files ∙ h,
      control_some (map number q.files) stack (λ x. n (sym h ∙ x)),
    )

abbrev laws : SocketLaws kernel
laws = record {
  cmsg_header = 16;
  cmsg_len_lem = λ n. refl;
  cmsg_space_le = λ n. omega arith;
  cmsg_header_le = omega arith;
  file = λ sock n w. number n;
  pending = λ sock w. map norm w;
  peer = λ sock. sock;
  send_none = λ sock payload w h. map-append norm w (packet payload [] ∷ []);
  send_rights = λ sock payload fds w a h.
      map-append norm w (packet payload (words (bytes fds)) ∷ [])
      ∙ ap (λ fs. map norm w ++ packet payload (map number fs) ∷ []) (words-bytes fds a);
  recv_payload = λ sock size space stack f w p ps e h. receive_payload size stack f w p ps e;
  recv_none = λ sock size space stack f w p ps e h. receive-none size stack f w p ps e h;
  recv_rights = λ sock size space stack f w p ps e n h. receive_rights size stack f w p ps e n;
  warn_same = λ c sock w. refl;
}

abbrev flags : Flags
flags = record { peek = false; trunc = true; dontwait = true }

abbrev one_file : World
one_file = packet (7 ∷ 8 ∷ []) (5 ∷ []) ∷ []

-- What the stack held: 16 bytes, the words 1, 2, 3 and 4.
abbrev stack : List ℕ
stack = bytes (1 ∷ 2 ∷ 3 ∷ 4 ∷ [])

abbrev four : List ℕ
four = 0 ∷ 0 ∷ 0 ∷ 0 ∷ []

-- A reader with room for four descriptors gets one, and a 2 from the stack behind it.
read_message-stale_example :
    get_elem? (read_message kernel (pos 3) [] 0 four 4 (pos 0) flags stack one_file).0.fds 1
    ≡ some 2
unfolding bytes words
read_message-stale_example =
    read_message-stale kernel laws (pos 3) [] 0 four 4 (pos 0) flags stack one_file
      (packet (7 ∷ 8 ∷ []) (5 ∷ [])) [] refl refl (λ e. cc e) (omega arith) (omega arith)

gneiss_read_message-gneiss_write_message_example :
    ((gneiss_read_message kernel
        (pos 3)
        (9 ∷ 9 ∷ [])
        2
        (0 ∷ [])
        1
        (pos 0)
        true
        []
        (gneiss_write_message kernel (pos 3) (7 ∷ 8 ∷ []) 2 (5 ∷ []) 1 []).1).0.msg
      ≡ 7 ∷ 8 ∷ [])
    × ((gneiss_read_message kernel
          (pos 3)
          (9 ∷ 9 ∷ [])
          2
          (0 ∷ [])
          1
          (pos 0)
          true
          []
          (gneiss_write_message kernel (pos 3) (7 ∷ 8 ∷ []) 2 (5 ∷ []) 1 []).1).0.length
        ≡ pos 2)
    × ((gneiss_read_message kernel
          (pos 3)
          (9 ∷ 9 ∷ [])
          2
          (0 ∷ [])
          1
          (pos 0)
          true
          []
          (gneiss_write_message kernel (pos 3) (7 ∷ 8 ∷ []) 2 (5 ∷ []) 1 []).1).0.trunc
        ≡ pos 0)
    × (map number
          (gneiss_read_message kernel
            (pos 3)
            (9 ∷ 9 ∷ [])
            2
            (0 ∷ [])
            1
            (pos 0)
            true
            []
            (gneiss_write_message kernel (pos 3) (7 ∷ 8 ∷ []) 2 (5 ∷ []) 1 []).1).0.fds
        ≡ 5 ∷ [])
    × (map norm
          (gneiss_read_message kernel
            (pos 3)
            (9 ∷ 9 ∷ [])
            2
            (0 ∷ [])
            1
            (pos 0)
            true
            []
            (gneiss_write_message kernel (pos 3) (7 ∷ 8 ∷ []) 2 (5 ∷ []) 1 []).1).1
        ≡ [])
gneiss_read_message-gneiss_write_message_example =
    gneiss_read_message-gneiss_write_message kernel laws (pos 3) (7 ∷ 8 ∷ []) (5 ∷ []) []
      (9 ∷ 9 ∷ []) 2 (0 ∷ []) (pos 0) true [] refl (omega arith) refl refl

abbrev seen : Received × World
seen = gneiss_peek_message kernel (pos 3) four 4 (0 ∷ []) 1 (pos 0) stack one_file

abbrev taken : Received × World
taken = gneiss_read_message kernel (pos 3) four 4 (0 ∷ []) 1 (pos 0) true stack seen.1

gneiss_read_message-gneiss_peek_message_example :
    (taken.0.msg ≡ seen.0.msg)
    × (taken.0.length ≡ seen.0.length)
    × (taken.0.trunc ≡ seen.0.trunc)
    × (map number seen.0.fds ≡ 5 ∷ [])
    × (map number taken.0.fds ≡ 5 ∷ [])
    × (seen.0.msg ≡ 7 ∷ 8 ∷ drop 2 four)
    × (seen.0.length ≡ pos 2)
    × (map norm seen.1 ≡ one_file)
    × (map norm taken.1 ≡ [])
    × (map norm (gneiss_drop_message kernel (pos 3) stack seen.1).1 ≡ [])
gneiss_read_message-gneiss_peek_message_example =
    gneiss_read_message-gneiss_peek_message kernel laws (pos 3) four 4 (0 ∷ []) 1 (pos 0) true stack
      one_file (packet (7 ∷ 8 ∷ []) (5 ∷ [])) [] refl refl refl
