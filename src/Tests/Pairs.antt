-- ===== src/Tests/Pairs.antt =====
-- A kernel with a queue for every socket; `pos n` and `negsuc n` are the two ends of a pair.
use mathlib.Core.List.{map-append}
use ada_interfaces.Base.{
  ℕ, ◌+◌, ◌*◌, ◌≡◌, ◌≢◌, refl, ap, ◌∙◌, List, [], ◌∷◌, ◌++◌, map, length, ℤ, pos, negsuc, arith,
  put_at, put_at-same, put_at-other,
}
use ada_interfaces.Linux.Socket.{Calls, Outgoing}
use ada_interfaces.Linux.Socket.Words.{bytes, words, words-bytes}
use ada_interfaces.Linux.Socket.Laws.{Packet, packet, SocketLaws, PairLaws}
use ada_interfaces.Tests.Sockets.{
  number, norm, files_of, receive, receive_payload, receive-none, receive_rights,
}

abbrev pub Queues : Type 0
Queues = ℕ → List Packet

abbrev pub place : ℤ → ℕ
place (pos n) = 2 * n
place (negsuc n) = 2 * n + 1

abbrev pub other_end : ℤ → ℤ
other_end (pos n) = negsuc n
other_end (negsuc n) = pos n

pub place-injective : (a b : ℤ) → place a ≡ place b → a ≡ b
place-injective (pos a) (pos b) e = ap pos (omega arith)
place-injective (pos a) (negsuc b) e = absurd (omega arith)
place-injective (negsuc a) (pos b) e = absurd (omega arith)
place-injective (negsuc a) (negsuc b) e = ap negsuc (omega arith)

abbrev deliver : ℤ → Outgoing → Queues → Queues
deliver sock m w =
    let to = place (other_end sock) in
    put_at w to (w to ++ packet m.payload (files_of m.control) ∷ [])

abbrev pub pair_kernel : Calls Queues
pair_kernel = record {
  cmsg_len = λ n. 16 + n;
  cmsg_space = λ n. 16 + n;
  sol_socket = 1;
  scm_rights = 1;
  sendmsg = λ sock m w. (pos (length m.payload), deliver sock m w);
  recvmsg = λ sock size space stack f w.
      let r = receive size stack f (w (place sock)) in (r.0, put_at w (place sock) r.1);
  warn = λ c w. (tt, w);
}

pub arrives :
    (w : Queues) (to : ℕ) (p : Packet)
    → map norm (put_at w to (w to ++ p ∷ []) to) ≡ map norm (w to) ++ norm p ∷ []
arrives w to p = ap (map norm) (put_at-same w to (w to ++ p ∷ [])) ∙ map-append norm (w to) (p ∷ [])

abbrev pub pair_socket : SocketLaws pair_kernel
pair_socket = record {
  cmsg_header = 16;
  cmsg_len_lem = λ n. refl;
  cmsg_space_le = λ n. omega arith;
  cmsg_header_le = omega arith;
  file = λ sock n w. number n;
  pending = λ sock w. map norm (w (place sock));
  peer = other_end;
  send_none = λ sock payload w h. arrives w (place (other_end sock)) (packet payload []);
  send_rights = λ sock payload fds w a h.
      arrives w (place (other_end sock)) (packet payload (words (bytes fds)))
      ∙ ap (λ fs. map norm (w (place (other_end sock))) ++ packet payload (map number fs) ∷ [])
          (words-bytes fds a);
  recv_payload = λ sock size space stack f w p ps e h.
      let r = receive_payload size stack f (w (place sock)) p ps e in
      (r.0, r.1, r.2, ap (map norm) (put_at-same w (place sock) _) ∙ r.3);
  recv_none =
      λ sock size space stack f w p ps e h. receive-none size stack f (w (place sock)) p ps e h;
  recv_rights =
      λ sock size space stack f w p ps e n h. receive_rights size stack f (w (place sock)) p ps e n;
  warn_same = λ c sock w. refl;
}

pub ends_differ : (sock : ℤ) → sock ≢ other_end sock
ends_differ (pos n) e = cc
ends_differ (negsuc n) e = cc

pub ends_back : (sock : ℤ) → other_end (other_end sock) ≡ sock
ends_back (pos n) = refl
ends_back (negsuc n) = refl

abbrev pub pair_laws : PairLaws pair_kernel pair_socket
pair_laws = record {
  peer_peer = ends_back;
  peer_other = ends_differ;
  send_other = λ sock other m w h. ap (map norm) (
      put_at-other w (place (other_end sock)) _ (place other)
        (λ e. h (place-injective other (other_end sock) e)));
  recv_other = λ sock other size space stack f w h.
      ap (map norm)
        (put_at-other w (place sock) _ (place other) (λ e. h (place-injective other sock e)));
}
