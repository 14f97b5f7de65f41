-- ===== src/Linux/Block/Session.antt =====
-- block_client_initialize and block_client_finalize.
use ada_interfaces.Base.{
  ℕ, ◌+◌, ◌*◌, ◌/◌, ◌≤◌, ◌<◌, ◌≡◌, ◌≢◌, refl, ◌∙◌, Bool, true, false, not, ◌&&◌, Option, none, some,
  ◌==◌, if◌then◌else◌, arith, pos, is_neg, Bool-cases, inl, inr,
}
use ada_interfaces.Linux.Block.{Calls, Client, Machine, regular, other_type, block_client_finalize}
use ada_interfaces.Linux.Block.Device.{block_client_initialize}
use ada_interfaces.Linux.Block.Laws.{DescriptorLaws}

abbrev is_some : Option ℕ → Bool
is_some none = false
is_some (some p) = true

-- `Initialized` of src/block/linux/gneiss-block.adb: how a caller tells whether a session is open.
unfoldable pub initialized : Client → Bool
initialized c = is_some c.event && is_some c.rw_callback && not (is_neg c.fd)

module _ {W : Type 0} (k : Calls W) where
  -- A regular file is opened with the block size of its file system. The blocks fit into the file,
  -- and less than one block is left over; the session is writable exactly if the file could be
  -- opened for writing, and counts as initialized.
  pub block_client_initialize-regular :
      (client : Client) (path e w bytes ro : ℕ) (s : Machine W) (n size blksize : ℕ)
      → let rdwr = k.openfile path true s.os in
        let opens = (if is_neg rdwr.0 then k.openfile path false rdwr.1 else rdwr) in
        opens.0 ≡ pos n
        → (k.fstat (pos n) opens.1).0 ≡ some (regular size blksize)
        → 0 < blksize
        → (c : Client) × ((block_client_initialize k client path (some e) (some w) bytes ro s).0
            ≡ some c)
          × (c.block_size ≡ blksize)
          × (c.block_count * c.block_size ≤ size)
          × (size < c.block_count * c.block_size + c.block_size)
          × (c.writable ≡ not (is_neg rdwr.0))
          × (initialized c ≡ true)
  unfolding block_client_initialize initialized
  block_client_initialize-regular client path e w bytes ro s n size blksize opens st some_size =
      let nz : (blksize == 0) ≡ false = ground arith in
      let c = record client {
        fd = pos n;
        block_size = blksize;
        block_count = size / blksize;
        event = some e;
        rw_callback = some w;
        writable = not (is_neg (k.openfile path true s.os).0);
      } in
      let fits : (size / blksize) * blksize ≤ size = grind arith in
      let rest : size < (size / blksize) * blksize + blksize = grind arith in
      (
        c,
        elim (Bool-cases (is_neg (k.openfile path true s.os).0)) [
          | inl y ↦ let o = rw y at opens in let f = rw y at st in rw (y, o, f, nz)
          | inr y ↦ let o = rw y at opens in let f = rw y at st in rw (y, o, f, nz)
        ],
        refl,
        fits,
        rest,
        refl,
        refl,
      )

  -- Finalizing leaves the descriptor in the session.
  block_client_finalize-stale :
      (t : DescriptorLaws k) (client : Client) (s : Machine W) (n : ℕ)
      → client.fd ≡ pos n
      → let r = block_client_finalize k client s in
        (t.is_open n r.1.os ≡ false)
        × ((m : ℕ) → m ≢ n → t.is_open m r.1.os ≡ t.is_open m s.os)
        × (initialized r.0 ≡ initialized client)
        × (r.0.fd ≡ pos n)
  unfolding block_client_finalize
  block_client_finalize-stale t client s n e = (
    rw e (t.close_self n _),
    λ m h. rw e (t.close_other n m _ h ∙ t.cancel_open (pos n) none m s.os),
    refl,
    e,
  )

  -- Where the path opens for writing a file that is neither a regular file nor a block device, the
  -- descriptor is closed, and yet the session counts as initialized, with that descriptor. From
  -- then on block_client_finalize, in any later process `v`, closes whatever has that number there,
  -- and no other descriptor, and the session still counts as initialized: it does so again each
  -- time.
  pub block_client_finalize-block_client_initialize :
      (t : DescriptorLaws k) (client : Client) (path e w bytes ro : ℕ) (s : Machine W) (n : ℕ)
      → (k.openfile path true s.os).0 ≡ pos n
      → (k.fstat (pos n) (k.openfile path true s.os).1).0 ≡ some other_type
      → let r = block_client_initialize k client path (some e) (some w) bytes ro s in
        (c : Client) × (r.0 ≡ some c)
        × (c.fd ≡ pos n)
        × (initialized c ≡ true)
        × (t.is_open n r.1.os ≡ false)
        × ((v : Machine W)
            → let f = block_client_finalize k c v in
              (t.is_open n f.1.os ≡ false)
              × ((m : ℕ) → m ≢ n → t.is_open m f.1.os ≡ t.is_open m v.os)
              × (initialized f.0 ≡ true)
              × (f.0.fd ≡ pos n))
  unfolding block_client_initialize initialized block_client_finalize
  block_client_finalize-block_client_initialize t client path e w bytes ro s n opens st =
      let c : Client = record client {
        fd = pos n;
        writable = true;
        event = some e;
        rw_callback = some w;
      } in
      (
        c,
        rw (opens, st),
        refl,
        refl,
        rw (opens, st) (t.close_self n _),
        λ v. block_client_finalize-stale t c v n refl,
      )
