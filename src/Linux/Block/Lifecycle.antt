-- ===== src/Linux/Block/Lifecycle.antt =====
-- A request from its allocation to its release, as the block client's callers drive it.
pub mod Sound
use ada_interfaces.Base.{
  ℕ, ◌≡◌, ◌≢◌, ◌⊎◌, inl, inr, refl, ◌∙◌, true, none, some, ◌==◌, arith, Bool-cases, ℤ, pos, is_neg,
  is_nonzero, to_size, int_eq, int_eq_sound, int_eq-false,
}
use ada_interfaces.Linux.Block.{
  Calls, Client, Request, Machine, cai_block_raw, cai_block_allocated, cai_block_pending,
  cai_block_ok, cai_block_error, cai_block_read, cai_block_write, update, enqueue, enqueue_result,
  block_client_allocate_request, block_client_release, block_client_update_request,
  block_client_enqueue,
}
use ada_interfaces.Linux.Block.Laws.{HeapLaws}
use ada_interfaces.Linux.Block.Allocate.{SameHeap, block_client_allocate_request-outcome}

module _ {W : Type 0} (k : Calls W) (t : HeapLaws k) where
  -- A raw request has no control block; any other has one, and a buffer apart from it, both
  -- allocated.
  pub data IsSound (r : Request) (s : Machine W) : Type 0 where
    idle : r.aio_cb ≡ none → r.status ≡ cai_block_raw → IsSound r s
    held :
        (a : ℕ)
        → r.aio_cb ≡ some a
        → t.live a s.os ≡ true
        → t.live (s.aiocbs a).aio_buf s.os ≡ true
        → a ≢ (s.aiocbs a).aio_buf
        → r.status ≢ cai_block_raw
        → IsSound r s

  -- The operations, each where the interface allows it, and whatever else runs in between and
  -- leaves allocated blocks and control blocks alone.
  pub data Step (client : Client) : Request → Machine W → Request → Machine W → Type 0 where
    allocates :
        {r : Request} {s : Machine W}
        → r.status ≡ cai_block_raw
        → Step client r s
            (block_client_allocate_request k client r s).0.0
            (block_client_allocate_request k client r s).1
    enqueues :
        {r : Request} {s : Machine W} (r' : Request)
        → r.status ≡ cai_block_allocated
        → (block_client_enqueue k client r s).0 ≡ some r'
        → Step client r s r' (block_client_enqueue k client r s).1
    updates :
        {r : Request} {s : Machine W} (r' : Request)
        → r.status ≡ cai_block_pending
        → (block_client_update_request k client r s).0 ≡ some r'
        → Step client r s r' (block_client_update_request k client r s).1
    releases :
        {r : Request} {s : Machine W}
        → Step client r s
            (block_client_release k client r s).0
            (block_client_release k client r s).1
    elsewhere :
        {r : Request} {s v : Machine W}
        → ((a : ℕ) → t.live a s.os ≡ true → t.live a v.os ≡ true)
        → ((a : ℕ) → t.live a s.os ≡ true → v.aiocbs a ≡ s.aiocbs a)
        → Step client r s r v

  pub data Reach (client : Client) (r : Request) (s : Machine W)
      : Request → Machine W → Type 0 where
    here : Reach client r s r s
    next :
        {r' r'' : Request} {s' s'' : Machine W}
        → Reach client r s r' s'
        → Step client r' s' r'' s''
        → Reach client r s r'' s''

  pub allocates-IsSound :
      (client : Client) (r : Request) (s : Machine W)
      → r.status ≡ cai_block_raw
      → IsSound r s
      → IsSound
          (block_client_allocate_request k client r s).0.0
          (block_client_allocate_request k client r s).1
  allocates-IsSound client r s raw (held a e l m d live) = absurd (live raw)
  allocates-IsSound client r s raw (idle e _) =
      elim (block_client_allocate_request-outcome k t client r s) [
        | inl (opcode, a, b, _, h) ↦
            rw h.result (
              held a refl h.taken.0 (rw h.control h.taken.1) (rw h.control h.distinct)
                (omega arith))
        | inr (inl (_, h, _)) ↦ rw h (idle e refl)
        | inr (inr (_, _, h)) ↦ rw h (idle e refl)
      ]

  -- What a submission leaves behind: a pending request or the same one, and memory as it was.
  pub record Submitted (r : Request) (s : Machine W) (r' : Request) (s' : Machine W) : Type 0 where
    pub outcome : (r' ≡ record r { status = cai_block_pending }) ⊎ (r' ≡ r)
    pub blocks : s'.aiocbs ≡ s.aiocbs
    pub heap : SameHeap k t s s'

  enqueue_result-Submitted :
      (r : Request) (z : ℤ) (s s' : Machine W)
      → s'.aiocbs ≡ s.aiocbs
      → SameHeap k t s s'
      → Submitted r s (enqueue_result k r z s').0 (enqueue_result k r z s').1
  unfolding enqueue_result
  enqueue_result-Submitted r z s s' b h = elim (Bool-cases (is_nonzero z)) [
    | inr x ↦ rw x (record { outcome = inl refl; blocks = b; heap = h })
    | inl x ↦ elim (Bool-cases (is_neg z)) [
      | inl y ↦
          rw (x, y)
            (record { outcome = inr refl; blocks = b; heap = λ c. t.report_live _ c _ ∙ h c })
      | inr y ↦ rw (x, y) (record { outcome = inr refl; blocks = b; heap = h })
    ]
  ]

  pub enqueue-Submitted :
      (r : Request) (a : ℕ) (s : Machine W) → Submitted r s (enqueue k r a s).0 (enqueue k r a s).1
  unfolding enqueue
  enqueue-Submitted r a s = elim (Bool-cases (r.kind == cai_block_write)) [
    | inl x ↦ rw x (
        enqueue_result-Submitted r (k.aio_write a (s.aiocbs a) s.os).0 s
          (record s { os = (k.aio_write a (s.aiocbs a) s.os).1 }) refl
          (λ c. t.write_live a (s.aiocbs a) c s.os))
    | inr x ↦ elim (Bool-cases (r.kind == cai_block_read)) [
      | inl y ↦
          rw (x, y)
            (enqueue_result-Submitted r (k.aio_read a (s.aiocbs a) s.os).0 s
              (record s { os = (k.aio_read a (s.aiocbs a) s.os).1 }) refl
              (λ c. t.read_live a (s.aiocbs a) c s.os))
      | inr y ↦ rw (x, y) (enqueue_result-Submitted r (pos 1) s s refl (λ c. refl))
    ]
  ]

  pub block_client_enqueue-some :
      (client : Client) (r : Request) (a : ℕ) (s : Machine W)
      → r.aio_cb ≡ some a
      → block_client_enqueue k client r s ≡ (some (enqueue k r a s).0, (enqueue k r a s).1)
  unfolding block_client_enqueue
  block_client_enqueue-some client r a s e = rw e

  pub block_client_update_request-some :
      (client : Client) (r : Request) (a : ℕ) (s : Machine W)
      → r.aio_cb ≡ some a
      → block_client_update_request k client r s ≡ update k r a s
  unfolding block_client_update_request
  block_client_update_request-some client r a s e = rw e

  pub block_client_update_request-status :
      (client : Client) (r : Request) (a : ℕ) (s : Machine W)
      → r.aio_cb ≡ some a
      → let e = k.aio_error a (s.aiocbs a) s.os in
        let n = k.aio_return a (s.aiocbs a) e.1 in
        let u = block_client_update_request k client r s in
        (((e.0 ≡ k.einprogress) × (u.0 ≡ some r))
          ⊎ ((e.0 ≢ k.einprogress)
              × (to_size n.0 ≡ (s.aiocbs a).aio_nbytes)
              × (u.0 ≡ some (record r { status = cai_block_ok })))
          ⊎ ((e.0 ≢ k.einprogress)
              × (to_size n.0 ≢ (s.aiocbs a).aio_nbytes)
              × (u.0 ≡ some (record r { status = cai_block_error }))))
        × (u.1.aiocbs ≡ s.aiocbs)
        × SameHeap k t s u.1
  unfolding update
  block_client_update_request-status client r a s p =
      let e = k.aio_error a (s.aiocbs a) s.os in
      let n = k.aio_return a (s.aiocbs a) e.1 in
      rw (block_client_update_request-some client r a s p)
        (elim (Bool-cases (int_eq e.0 k.einprogress)) [
          | inl busy ↦ rw busy (
            inl (int_eq_sound e.0 k.einprogress busy, refl),
            refl,
            λ c. t.error_live a (s.aiocbs a) c s.os,
          )
          | inr differs ↦ rw differs (
              let done = int_eq-false e.0 k.einprogress differs in
              elim (Bool-cases (to_size n.0 == (s.aiocbs a).aio_nbytes)) [
                | inl q ↦ rw q (
                  inr (inl (done, ground arith, refl)),
                  refl,
                  λ c. t.return_live a (s.aiocbs a) c e.1 ∙ t.error_live a (s.aiocbs a) c s.os,
                )
                | inr q ↦ rw q (
                  inr (inr (done, ground arith, refl)),
                  refl,
                  λ c. t.return_live a (s.aiocbs a) c e.1 ∙ t.error_live a (s.aiocbs a) c s.os,
                )
              ])
        ])
