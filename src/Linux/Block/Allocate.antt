-- ===== src/Linux/Block/Allocate.antt =====
-- block_client_allocate_request and block_client_release against the heap.
use native.Mathlib.Decide.{ℕ_discrete}
use ada_interfaces.Base.{
  ℕ, ◌≡◌, ◌≢◌, ◌⊎◌, inl, inr, refl, sym, ◌∙◌, true, false, none, some, ◌==◌, arith, Bool-cases,
  Option-cases, replicate,
}
use ada_interfaces.Linux.Block.{
  Calls, Client, Request, Machine, Aiocb, Opcode, lio_read, lio_write, cai_block_raw,
  cai_block_allocated, cai_block_read, cai_block_write, mul64, allocate, fill_request,
  block_client_allocate_request,
}
use ada_interfaces.Linux.Block.Laws.{HeapLaws}

some_injective : {a b : ℕ} → some a ≡ some b → a ≡ b
some_injective e = cc

-- The control block that a request of the client is given.
abbrev pub aiocb_of : Client → Request → Opcode → ℕ → Aiocb
aiocb_of client request opcode b = record {
  aio_fildes = client.fd;
  aio_offset = mul64 request.start client.block_size;
  aio_nbytes = mul64 request.length client.block_size;
  aio_lio_opcode = opcode;
  aio_buf = b;
}

module _ {W : Type 0} (k : Calls W) (t : HeapLaws k) where
  abbrev pub SameHeap : Machine W → Machine W → Type 0
  SameHeap s s' = (c : ℕ) → t.live c s'.os ≡ t.live c s.os

  -- What an allocation that succeeds leaves behind.
  pub record Allocated (client : Client) (request : Request) (opcode : Opcode) (s : Machine W)
      (r : Request × ℕ) (s' : Machine W) (a b : ℕ) : Type 0 where
    pub result : r ≡ (record request { status = cai_block_allocated; aio_cb = some a }, 0)
    pub control : s'.aiocbs a ≡ aiocb_of client request opcode b
    pub zeroed : s'.buffers b ≡ replicate (mul64 request.length client.block_size) 0
    pub sizes :
        (t.size a s'.os ≡ k.sizeof_aiocb)
        × (t.size b s'.os ≡ mul64 request.length client.block_size)
    pub distinct : a ≢ b
    pub fresh : (t.live a s.os ≡ false) × (t.live b s.os ≡ false)
    pub taken : (t.live a s'.os ≡ true) × (t.live b s'.os ≡ true)
    pub others : (c : ℕ) → c ≢ a → c ≢ b → t.live c s'.os ≡ t.live c s.os

  malloc_none : (n c : ℕ) (w : W) → (k.malloc n w).0 ≡ none → t.live c (k.malloc n w).1 ≡ t.live c w
  malloc_none n c w e = t.malloc_other n c w (λ q. cc)

  malloc_some :
      (n a c : ℕ) (w : W)
      → (k.malloc n w).0 ≡ some a
      → c ≢ a
      → t.live c (k.malloc n w).1 ≡ t.live c w
  malloc_some n a c w e ne = t.malloc_other n c w (λ q. ne (some_injective (sym q ∙ e)))

  -- A block that is freed again at once, with some null pointer freed in between.
  undone :
      (n a c : ℕ) (w v : W)
      → (k.malloc n w).0 ≡ some a
      → ((b : ℕ) → t.live b v ≡ t.live b (k.malloc n w).1)
      → t.live c (k.free (some a) v).1 ≡ t.live c w
  undone n a c w v e same = elim (ℕ_discrete c a) [
    | yes p ↦ rw p (t.free_self a v ∙ sym (t.malloc_fresh n a w e).0)
    | no p ↦ t.free_other a c v p ∙ same c ∙ malloc_some n a c w e p
  ]

  both-Allocated :
      (client : Client) (request : Request) (opcode : Opcode) (s : Machine W) (a b : ℕ)
      → let m = k.sizeof_aiocb in
        let n = mul64 request.length client.block_size in
        (k.malloc m s.os).0 ≡ some a
        → (k.malloc n (k.malloc m s.os).1).0 ≡ some b
        → let r =
            fill_request k client request opcode
              (some a)
              (some b)
              (record s { os = (k.malloc n (k.malloc m s.os).1).1 }) in
          Allocated client request opcode s r.0 r.1 a b
  unfolding fill_request
  both-Allocated client request opcode s a b e f =
      let m = k.sizeof_aiocb in
      let n = mul64 request.length client.block_size in
      let p = t.malloc_fresh m a s.os e in
      let q = t.malloc_fresh n b (k.malloc m s.os).1 f in
      let ne : a ≢ b = λ x. cc (p.1, q.0) in
      record {
        result = refl;
        control = ground arith;
        zeroed = ground arith;
        sizes = (
          t.malloc_size n a (k.malloc m s.os).1 (λ x. ne (some_injective (sym x ∙ f))) ∙ p.2,
          q.2,
        );
        distinct = ne;
        fresh = (p.0, sym (malloc_some m a b s.os e (λ x. ne (sym x))) ∙ q.0);
        taken = (malloc_some n b a (k.malloc m s.os).1 f ne ∙ p.1, q.1);
        others =
            λ c c_a c_b. malloc_some n b c (k.malloc m s.os).1 f c_b ∙ malloc_some m a c s.os e c_a;
      }

  allocate-outcome :
      (client : Client) (request : Request) (opcode : Opcode) (s : Machine W)
      → let r = allocate k client request opcode s in
        ((a : ℕ) × (b : ℕ) × Allocated client request opcode s r.0 r.1 a b)
        ⊎ ((r.0 ≡ (request, 2)) × SameHeap s r.1)
  unfolding allocate
  allocate-outcome client request opcode s =
      let m = k.sizeof_aiocb in
      let n = mul64 request.length client.block_size in
      let w = (k.malloc m s.os).1 in
      elim (Option-cases (k.malloc m s.os).0) [
        | inl e ↦ elim (Option-cases (k.malloc n w).0) [
          | inl f ↦
              rw (e, f)
                (inr (
                  refl,
                  λ c.
                      t.free_null c _
                      ∙ t.free_null c _
                      ∙ malloc_none n c w f
                      ∙ malloc_none m c s.os e,
                ))
          | inr (b, f) ↦
              rw (e, f)
                (inr
                  (refl, λ c. undone n b c w _ f (λ x. t.free_null x _) ∙ malloc_none m c s.os e))
        ]
        | inr (a, e) ↦ elim (Option-cases (k.malloc n w).0) [
          | inl f ↦
              rw (e, f)
                (inr
                  (refl, λ c. t.free_null c _ ∙ undone m a c s.os _ e (λ x. malloc_none n x w f)))
          | inr (b, f) ↦ rw (e, f) (inl (a, b, both-Allocated client request opcode s a b e f))
        ]
      ]

  -- block_client_allocate_request has three outcomes. Success: status ALLOCATED, no retry, a
  -- control block for the request, a buffer whose block has exactly `length * block_size`
  -- bytes (in 64 bits), all zeroed, and two distinct blocks that were free before. Out of memory, for a read or a write: status RAW, retry 2 and
  -- the heap as before, a half-done allocation being undone. Any other kind: status RAW, retry 0
  -- and nothing touched. In the last two the pointer of the request stays.
  pub block_client_allocate_request-outcome :
      (client : Client) (request : Request) (s : Machine W)
      → let r = block_client_allocate_request k client request s in
        let raw = record request { status = cai_block_raw } in
        ((opcode : Opcode) × (a : ℕ) × (b : ℕ) × (((request.kind ≡ cai_block_read)
              × (opcode ≡ lio_read))
            ⊎ ((request.kind ≡ cai_block_write) × (opcode ≡ lio_write)))
          × Allocated client raw opcode s r.0 r.1 a b)
        ⊎ (((request.kind ≡ cai_block_read) ⊎ (request.kind ≡ cai_block_write))
            × (r.0 ≡ (raw, 2))
            × SameHeap s r.1)
        ⊎ ((request.kind ≢ cai_block_read) × (request.kind ≢ cai_block_write) × (r ≡ ((raw, 0), s)))
  unfolding block_client_allocate_request
  block_client_allocate_request-outcome client request s =
      let raw = record request { status = cai_block_raw } in
      elim (Bool-cases (request.kind == cai_block_read)) [
        | inl y ↦ rw y (elim (allocate-outcome client raw lio_read s) [
          | inl (a, b, h) ↦ inl (lio_read, a, b, inl (ground arith, refl), h)
          | inr h ↦ inr (inl (inl (ground arith), h.0, h.1))
        ])
        | inr n ↦ elim (Bool-cases (request.kind == cai_block_write)) [
          | inl y ↦
              rw (n, y)
                (elim (allocate-outcome client raw lio_write s) [
                  | inl (a, b, h) ↦ inl (lio_write, a, b, inr (ground arith, refl), h)
                  | inr h ↦ inr (inl (inr (ground arith), h.0, h.1))
                ])
          | inr m ↦ rw (n, m) (inr (inr (ground arith, ground arith, refl)))
        ]
      ]
