-- ===== src/Linux/Socket/Laws.antt =====
-- What the sources rely on of sendmsg(2), recvmsg(2) and unix(7) for a sequenced-packet socket
-- pair, as laws about `Calls`.
use ada_interfaces.Base.{
  ℕ, ◌+◌, ◌*◌, ◌≤◌, ◌≡◌, ◌≢◌, true, false, none, some, List, [], ◌∷◌, ◌++◌, map, length, take, drop,
  ltb, if◌then◌else◌, ℤ, pos, is_neg,
}
use ada_interfaces.Linux.Socket.{Calls, Warning, Control, Outgoing, Flags}
use ada_interfaces.Linux.Socket.Words.{bytes, AreWords}

-- A message in a socket's queue: its bytes, and the open files that it carries.
pub record Packet : Type 0 where
  pub payload : List ℕ
  pub files : List ℕ

abbrev pub packet : List ℕ → List ℕ → Packet
packet payload files = record { payload = payload; files = files }

-- SCM_RIGHTS for `n` descriptors.
abbrev pub rights_control : {W : Type 0} → Calls W → ℕ → List ℕ → Control
rights_control k n content = record {
  cmsg_len = k.cmsg_len (4 * n);
  cmsg_level = k.sol_socket;
  cmsg_type = k.scm_rights;
  content = content;
}

-- `file sock n w` is the open file that number `n` stands for in the process that holds `sock`;
-- `pending sock w` are the messages that wait at `sock`, the oldest first.
pub record SocketLaws {W : Type 0} (k : Calls W) : Type 0 where
  pub cmsg_header : ℕ
  pub cmsg_len_lem : (n : ℕ) → k.cmsg_len n ≡ cmsg_header + n
  pub cmsg_space_le : (n : ℕ) → cmsg_header + n ≤ k.cmsg_space n
  pub cmsg_header_le : 4 ≤ cmsg_header
  pub file : ℤ → ℕ → W → ℕ
  pub pending : ℤ → W → List Packet
  pub peer : ℤ → ℤ
  pub send_none :
      (sock : ℤ) (payload : List ℕ) (w : W)
      → let r = k.sendmsg sock (record { payload = payload; control = none }) w in
        is_neg r.0 ≡ false
        → pending (peer sock) r.1 ≡ pending (peer sock) w ++ packet payload [] ∷ []
  pub send_rights :
      (sock : ℤ) (payload fds : List ℕ) (w : W)
      → AreWords fds
      → let c = rights_control k (length fds) (bytes fds) in
        let r = k.sendmsg sock (record { payload = payload; control = some c }) w in
        is_neg r.0 ≡ false
        → pending (peer sock) r.1
          ≡ pending (peer sock) w ++ packet payload (map (λ n. file sock n w) fds) ∷ []
  pub recv_payload :
      (sock : ℤ) (size space : ℕ) (stack : List ℕ) (f : Flags) (w : W) (p : Packet)
      (ps : List Packet)
      → pending sock w ≡ p ∷ ps
      → f.trunc ≡ true
      → let r = k.recvmsg sock size space stack f w in
        (r.0.result ≡ pos (length p.payload))
        × (r.0.payload ≡ take size p.payload)
        × (r.0.truncated ≡ ltb size (length p.payload))
        × (pending sock r.1 ≡ (if f.peek then p ∷ ps else ps))
  pub recv_none :
      (sock : ℤ) (size space : ℕ) (stack : List ℕ) (f : Flags) (w : W) (p : Packet)
      (ps : List Packet)
      → pending sock w ≡ p ∷ ps
      → p.files ≡ []
      → (k.recvmsg sock size space stack f w).0.control ≡ none
  -- The files get fresh numbers in the receiving process, as many as were sent if they fit.
  pub recv_rights :
      (sock : ℤ) (size space : ℕ) (stack : List ℕ) (f : Flags) (w : W) (p : Packet)
      (ps : List Packet)
      → pending sock w ≡ p ∷ ps
      → p.files ≢ []
      → k.cmsg_len (4 * length p.files) ≤ space
      → let r = k.recvmsg sock size space stack f w in
        (fds : List ℕ) × AreWords fds
        × (map (λ n. file sock n r.1) fds ≡ p.files)
        × (r.0.control
            ≡ some (rights_control k (length fds) (bytes fds ++ drop (4 * length fds) stack)))
  pub warn_same : (c : Warning) (sock : ℤ) (w : W) → pending sock (k.warn c w).1 ≡ pending sock w

-- The two ends of a pair: what one call does to a queue that it is not about.
pub record PairLaws {W : Type 0} (k : Calls W) (t : SocketLaws k) : Type 0 where
  pub peer_peer : (sock : ℤ) → t.peer (t.peer sock) ≡ sock
  pub peer_other : (sock : ℤ) → sock ≢ t.peer sock
  pub send_other :
      (sock other : ℤ) (m : Outgoing) (w : W)
      → other ≢ t.peer sock
      → t.pending other (k.sendmsg sock m w).1 ≡ t.pending other w
  pub recv_other :
      (sock other : ℤ) (size space : ℕ) (stack : List ℕ) (f : Flags) (w : W)
      → other ≢ sock
      → t.pending other (k.recvmsg sock size space stack f w).1 ≡ t.pending other w
