-- ===== src/Linux/Socket.antt =====
-- Messages with descriptors over a Unix socket: gneiss_write_message, gneiss_peek_message,
-- gneiss_read_message and gneiss_drop_message of src/platform/linux/syscall.c.
pub mod Words
pub mod Laws
pub mod Rights
pub mod Transfer
pub mod Exchange
use ada_interfaces.Base.{
  ℕ, zero, suc, ◌+◌, ◌*◌, Bool, true, false, ◌&&◌, Option, none, some, List, [], ◌∷◌, ◌++◌, length,
  set, take, drop, min, ltb, ◌==◌, if◌then◌else◌, ℤ, pos, is_neg, of_bool, not, Proc, pure, ◌>>=◌,
  ◌>>◌, when,
}
use Words.{bytes, words}

pub data Warning : Type 0 where
  sendmsg_failed recvmsg_failed : ℤ → Warning

-- The first control message: its header, and the bytes from CMSG_DATA on.
pub record Control : Type 0 where
  pub cmsg_len : ℕ
  pub cmsg_level : ℕ
  pub cmsg_type : ℕ
  pub content : List ℕ

-- What `struct msghdr` hands to sendmsg.
pub record Outgoing : Type 0 where
  pub payload : List ℕ
  pub control : Option Control

pub record Flags : Type 0 where
  pub peek : Bool
  pub trunc : Bool
  pub dontwait : Bool

-- What recvmsg leaves: its result, the bytes that it stored through the io vector, MSG_TRUNC in
-- msg_flags, and CMSG_FIRSTHDR, whose content reaches to the end of the control buffer.
pub record Incoming : Type 0 where
  pub result : ℤ
  pub payload : List ℕ
  pub truncated : Bool
  pub control : Option Control

-- The C library and the kernel.
pub record Calls (W : Type 0) : Type 0 where
  pub cmsg_len : ℕ → ℕ
  pub cmsg_space : ℕ → ℕ
  pub sol_socket : ℕ
  pub scm_rights : ℕ
  pub sendmsg : ℤ → Outgoing → Proc W ℤ
  -- socket, size of the io vector, size of the control buffer, what that held, and the flags
  pub recvmsg : ℤ → ℕ → ℕ → List ℕ → Flags → Proc W Incoming
  pub warn : Warning → Proc W (Unit {0})

-- An `int` is its 32-bit pattern here; this is -1.
abbrev pub no_fd : ℕ
no_fd = 0xffff_ffff

-- `for(int i = 0; i < num; i++){ fd[i] = -1; }`
unfoldable pub invalidate : ℕ → List ℕ → List ℕ
invalidate zero fds = fds
invalidate (suc i) fds = set (invalidate i fds) i no_fd

-- memcpy of `n` bytes over the array `fds`.
unfoldable pub copy : ℕ → List ℕ → List ℕ → List ℕ
copy n src fds = words (take n src ++ drop n (bytes fds))

-- Bytes stored at the start of a buffer.
abbrev pub overlay : List ℕ → List ℕ → List ℕ
overlay xs buffer = xs ++ drop (length xs) buffer

-- What a reader finds in its out parameters.
pub record Received : Type 0 where
  pub msg : List ℕ
  pub fds : List ℕ
  pub length : ℤ
  pub trunc : ℤ

module _ {W : Type 0} (k : Calls W) where
  unfoldable pub rights : List ℕ → ℕ → Option Control
  rights fds num =
      if ltb 0 num
      then some (record {
        cmsg_len = k.cmsg_len (4 * num);
        cmsg_level = k.sol_socket;
        cmsg_type = k.scm_rights;
        content = bytes (take num fds);
      })
      else none

  unfoldable pub gneiss_write_message : ℤ → List ℕ → ℕ → List ℕ → ℕ → Proc W (Unit {0})
  unfolding rights
  gneiss_write_message sock msg size fds num = do
    rc ← k.sendmsg sock (record { payload = take size msg; control = rights fds num })
    when (is_neg rc) (k.warn (sendmsg_failed sock))

  unfoldable pub is_rights : Control → Bool
  is_rights c = c.cmsg_level == k.sol_socket && c.cmsg_type == k.scm_rights

  unfoldable pub store_rights : Option Control → ℕ → List ℕ → List ℕ
  unfolding is_rights copy
  store_rights none num fds = fds
  store_rights (some c) num fds =
      if is_rights c then copy (min (4 * num) c.cmsg_len) c.content fds else fds

  -- `msg`, `fds` and `trunc` are the old content of the out parameters, `stack` is what the
  -- control buffer held when the function was entered.
  unfoldable pub read_message : ℤ → List ℕ → ℕ → List ℕ → ℕ → ℤ → Flags → List ℕ → Proc W Received
  unfolding store_rights
  read_message sock msg size fds num trunc flags stack = do
    let blank = invalidate num fds
    r ← k.recvmsg sock size (k.cmsg_space (4 * num)) stack flags
    if is_neg r.result
        then (do
          k.warn (recvmsg_failed sock)
          pure (record { msg = msg; fds = blank; length = pos 0; trunc = trunc }))
        else pure (record {
          msg = overlay r.payload msg;
          fds = store_rights r.control num blank;
          length = r.result;
          trunc = of_bool r.truncated;
        })

  -- MSG_PEEK | MSG_TRUNC | MSG_DONTWAIT
  unfoldable pub gneiss_peek_message : ℤ → List ℕ → ℕ → List ℕ → ℕ → ℤ → List ℕ → Proc W Received
  gneiss_peek_message sock msg size fds num trunc =
      read_message sock msg size fds num trunc
        (record { peek = true; trunc = true; dontwait = true })

  -- MSG_TRUNC, and MSG_DONTWAIT unless `block`
  unfoldable pub gneiss_read_message :
      ℤ → List ℕ → ℕ → List ℕ → ℕ → ℤ → Bool → List ℕ → Proc W Received
  gneiss_read_message sock msg size fds num trunc block =
      read_message sock msg size fds num trunc
        (record { peek = false; trunc = true; dontwait = not block })

  unfoldable pub gneiss_drop_message : ℤ → List ℕ → Proc W (Unit {0})
  gneiss_drop_message sock stack = do
    r ←
        k.recvmsg sock 0 (k.cmsg_space 4) stack
          (record { peek = false; trunc = true; dontwait = false })
    when (is_neg r.result) (k.warn (recvmsg_failed sock))
