-- ===== src/Genode/Block/Server/Content.antt =====
-- The content of a request: Block::Server::read and Block::Server::write.
use ada_interfaces.Base.{ℕ, ◌+◌, ◌-◌, ◌≡◌, ◌≤◌, ◌<◌, ◌⊎◌, refl, Option, some, ◌∙◌, arith}
use ada_interfaces.Genode.Block.Server.{Request, Calls, Server, Machine, memcpy, read, write}

-- The stream gives a request its content, an address and a number of bytes. Asking for that of one
-- request changes none.
pub record ContentLaws {W : Type 0} (k : Calls W) : Type 0 where
  pub content : Option ℕ → Request → W → Option (ℕ × ℕ)
  pub content_given :
      (p : Option ℕ) (r : Request) (w : W)
      → ((k.with_content p r w).0 ≡ content p r w)
        × ((q : Request) → content p q (k.with_content p r w).1 ≡ content p q w)

-- An address is outside of the `n` bytes from another one on.
abbrev pub Outside : ℕ → ℕ → ℕ → Type 0
Outside a start n = (a < start) ⊎ (start + n ≤ a)

-- Two regions of memory do not overlap.
abbrev pub Disjoint : ℕ → ℕ → ℕ → ℕ → Type 0
Disjoint a n b m = (a + n ≤ b) ⊎ (b + m ≤ a)

module _ {W : Type 0} where
  memcpy-inside :
      (dst src n i : ℕ) (s : Machine W)
      → i < n
      → (memcpy dst src n s).1.memory (dst + i) ≡ s.memory (src + i)
  unfolding memcpy
  memcpy-inside dst src n i s h =
      let back : dst + i - dst ≡ i = omega arith in rw back (ground arith)

  memcpy-Outside :
      (dst src n a : ℕ) (s : Machine W)
      → Outside a dst n
      → (memcpy dst src n s).1.memory a ≡ s.memory a
  unfolding memcpy
  memcpy-Outside dst src n a s h = ground arith

module _ {W : Type 0} (k : Calls W) (t : ContentLaws k) (this : Server) (r : Request) where
  -- The state in which the stream has answered.
  abbrev asked : Machine W → Machine W
  asked s = record s { os = (k.with_content this.session r s.os).1 }

  read_lem :
      (buffer offset size ptr m : ℕ) (s : Machine W)
      → t.content this.session r s.os ≡ some (ptr, m)
      → read k this r buffer offset size s ≡ memcpy (ptr + offset) buffer size (asked s)
  unfolding read
  read_lem buffer offset size ptr m s e = rw ((t.content_given this.session r s.os).0 ∙ e) refl

  write_lem :
      (buffer offset size ptr m : ℕ) (s : Machine W)
      → t.content this.session r s.os ≡ some (ptr, m)
      → write k this r buffer offset size s ≡ memcpy buffer (ptr + offset) size (asked s)
  unfolding write
  write_lem buffer offset size ptr m s e = rw ((t.content_given this.session r s.os).0 ∙ e) refl

module _ {W : Type 0} (k : Calls W) (t : ContentLaws k) (this : Server) (put get : Request) where
  -- What a client writes in one request the server gets by Server::write in its buffer, and what it
  -- then puts into another request by Server::read is the same, byte by byte: the bytes of the
  -- second content at its offset are those of the first at its own. No other byte of memory changes
  -- but those of the buffer; in the second content, none but those at the offset. The bytes are
  -- within both contents, and the buffer overlaps neither content, nor they each other.
  pub read-write :
      (buffer size from first m to second n : ℕ) (s : Machine W)
      → t.content this.session put s.os ≡ some (first, m)
      → t.content this.session get s.os ≡ some (second, n)
      → from + size ≤ m
      → to + size ≤ n
      → Disjoint buffer size first m
      → Disjoint buffer size second n
      → Disjoint first m second n
      → let s' = (read k this get buffer to size (write k this put buffer from size s).1).1 in
        ((i : ℕ) → i < size → s'.memory (second + to + i) ≡ s.memory (first + from + i))
        × ((i : ℕ) → i < m → s'.memory (first + i) ≡ s.memory (first + i))
        × ((i : ℕ) → i < n → Outside i to size → s'.memory (second + i) ≡ s.memory (second + i))
        × ((a : ℕ)
            → Outside a buffer size
            → Outside a (second + to) size
            → s'.memory a ≡ s.memory a)
  unfolding memcpy
  read-write buffer size from first m to second n s e f fits fits' apart apart' contents =
      let s1 = (memcpy buffer (first + from) size (asked k t this put s)).1 in
      let again : t.content this.session get s1.os ≡ some (second, n) =
        (t.content_given this.session put s.os).1 get ∙ f in
      let still : (a : ℕ) → Outside a buffer size → Outside a (second + to) size → _ = λ a o o'.
        memcpy-Outside (second + to) buffer size a (asked k t this get s1) o'
        ∙ memcpy-Outside buffer (first + from) size a (asked k t this put s) o in
      rw
        (
          write_lem k t this put buffer from size first m s e,
          read_lem k t this get buffer to size second n s1 again,
        )
        (
          λ i h.
              memcpy-inside (second + to) buffer size i (asked k t this get s1) h
              ∙ memcpy-inside buffer (first + from) size i (asked k t this put s) h,
          λ i h. still (first + i) (ground arith) (ground arith),
          λ i h o. still (second + i) (ground arith) (ground arith),
          still,
        )
