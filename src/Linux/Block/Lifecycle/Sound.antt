-- ===== src/Linux/Block/Lifecycle/Sound.antt =====
-- No step leads to a dangling control block, and a release gives back what an allocation took.
use native.Mathlib.Decide.{ℕ_discrete}
use ada_interfaces.Base.{ℕ, ◌≡◌, ◌≢◌, inl, inr, refl, sym, ◌∙◌, ap, false, Option, some, arith}
use ada_interfaces.Linux.Block.{
  Calls, Client, Request, Machine, zero_request, cai_block_raw, cai_block_allocated,
  cai_block_pending, enqueue, block_client_allocate_request, block_client_release,
  block_client_update_request, block_client_enqueue,
}
use ada_interfaces.Linux.Block.Laws.{HeapLaws}
use ada_interfaces.Linux.Block.Allocate.{block_client_allocate_request-outcome, SameHeap}
use ada_interfaces.Linux.Block.Lifecycle.{
  IsSound, idle, held, Step, allocates, enqueues, updates, releases, elsewhere, Reach, here, next,
  allocates-IsSound, enqueue-Submitted, block_client_enqueue-some,
  block_client_update_request-status,
}

some_injective {ℓ} : {A : Type ℓ} {a b : A} → some a ≡ some b → a ≡ b
some_injective e = cc

zero_ne_one : ◌≢◌ {A = ℕ} 0 1
zero_ne_one = omega arith

module _ {W : Type 0} (k : Calls W) (t : HeapLaws k) where
  -- A request that keeps its control block in memory that stays as it is, with a status that is
  -- not RAW, stays sound.
  kept-IsSound :
      (r r' : Request) (s s' : Machine W)
      → IsSound k t r s
      → r.status ≢ cai_block_raw
      → r'.aio_cb ≡ r.aio_cb
      → r'.status ≢ cai_block_raw
      → s'.aiocbs ≡ s.aiocbs
      → SameHeap k t s s'
      → IsSound k t r' s'
  kept-IsSound r r' s s' (idle e raw) live p q b h = absurd (live raw)
  kept-IsSound r r' s s' (held a e l m d _) live p q b h =
      held a (p ∙ e) (h a ∙ l) (rw b (h (s.aiocbs a).aio_buf ∙ m)) (rw b d) q

  enqueues-IsSound :
      (client : Client) (r r' : Request) (s : Machine W)
      → r.status ≡ cai_block_allocated
      → (block_client_enqueue k client r s).0 ≡ some r'
      → IsSound k t r s
      → IsSound k t r' (block_client_enqueue k client r s).1
  enqueues-IsSound client r r' s st e (idle p raw) = absurd (omega arith)
  enqueues-IsSound client r r' s st e (held a p l m d live) =
      let whole = block_client_enqueue-some k t client r a s p in
      let sub = enqueue-Submitted k t r a s in
      let same : r' ≡ (enqueue k r a s).0 =
        some_injective (sym e ∙ ap (λ (x : Option Request × Machine W). x.0) whole) in
      rw (whole, same)
        (elim sub.outcome [
          | inl o ↦
              kept-IsSound r _ s _ (held a p l m d live) live (rw o) (rw o (omega arith)) sub.blocks
                sub.heap
          | inr o ↦
              kept-IsSound r _ s _ (held a p l m d live) live (rw o) (rw o live) sub.blocks sub.heap
        ])

  updates-IsSound :
      (client : Client) (r r' : Request) (s : Machine W)
      → r.status ≡ cai_block_pending
      → (block_client_update_request k client r s).0 ≡ some r'
      → IsSound k t r s
      → IsSound k t r' (block_client_update_request k client r s).1
  updates-IsSound client r r' s st e (idle p raw) = absurd (omega arith)
  updates-IsSound client r r' s st e (held a p l m d live) =
      let (how, blocks, heap) = block_client_update_request-status k t client r a s p in
      let sound = held a p l m d live in
      elim how [
        | inl (_, u) ↦
            let q = some_injective (sym e ∙ u) in
            kept-IsSound r r' s _ sound live (rw q) (rw q live) blocks heap
        | inr (inl (_, _, u)) ↦
            let q = some_injective (sym e ∙ u) in
            kept-IsSound r r' s _ sound live (rw q) (rw q (omega arith)) blocks heap
        | inr (inr (_, _, u)) ↦
            let q = some_injective (sym e ∙ u) in
            kept-IsSound r r' s _ sound live (rw q) (rw q (omega arith)) blocks heap
      ]

  -- The release of a request with a control block: the zero request, and the two blocks given back.
  record Released (a b : ℕ) (s : Machine W) (r' : Request) (s' : Machine W) : Type 0 where
    zero : r' ≡ zero_request
    dead : (t.live a s'.os ≡ false) × (t.live b s'.os ≡ false)
    others : (c : ℕ) → c ≢ a → c ≢ b → t.live c s'.os ≡ t.live c s.os

  block_client_release-Released :
      (client : Client) (r : Request) (a : ℕ) (s : Machine W)
      → r.aio_cb ≡ some a
      → let x = block_client_release k client r s in Released a (s.aiocbs a).aio_buf s x.0 x.1
  unfolding block_client_release
  block_client_release-Released client r a s e =
      let b = (s.aiocbs a).aio_buf in
      let v = (k.aio_cancel client.fd (some a) s.os).1 in
      let dead_b : t.live b (k.free (some a) (k.free (some b) v).1).1 ≡ false =
        elim (ℕ_discrete b a) [
          | yes p ↦ rw p (t.free_self a _)
          | no p ↦ t.free_other a b _ p ∙ t.free_self b v
        ] in
      rw e (record {
        zero = refl;
        dead = (t.free_self a _, dead_b);
        others = λ c c_a c_b.
            t.free_other a c _ c_a
            ∙ t.free_other b c v c_b
            ∙ t.cancel_live client.fd (some a) c s.os;
      })

  release-zero :
      (client : Client) (r : Request) (s : Machine W)
      → (block_client_release k client r s).0 ≡ zero_request
  unfolding block_client_release
  release-zero client r s = ground arith

  Step-IsSound :
      {client : Client} {r : Request} {s : Machine W} {r' : Request} {s' : Machine W}
      → Step k t client r s r' s'
      → IsSound k t r s
      → IsSound k t r' s'
  Step-IsSound {client} {r} {s = s} (allocates raw) i = allocates-IsSound k t client r s raw i
  Step-IsSound {client} {r} {s = s} (enqueues r' st e) i = enqueues-IsSound client r r' s st e i
  Step-IsSound {client} {r} {s = s} (updates r' st e) i = updates-IsSound client r r' s st e i
  Step-IsSound {client} {r} {s = s} releases i =
      idle (rw (release-zero client r s)) (rw (release-zero client r s))
  Step-IsSound (elsewhere live same) (idle e raw) = idle e raw
  Step-IsSound (elsewhere live same) (held a e l m d st) =
      held a e (live a l) (rw (same a l) (live _ m)) (rw (same a l) d) st

  -- A sound request stays sound in every sequence of steps: an allocation of a raw request, a
  -- submission of an allocated one and an update of a pending one, as the preconditions of the Ada
  -- procedures want them, a release of any, and steps of other code that leave the blocks that are
  -- allocated and their control blocks alone. Sound is a raw request without a control block, or
  -- one that is not raw and whose control block and buffer are two distinct allocated blocks.
  pub Reach-IsSound :
      {client : Client} {r : Request} {s : Machine W} {r' : Request} {s' : Machine W}
      → IsSound k t r s
      → Reach k t client r s r' s'
      → IsSound k t r' s'
  Reach-IsSound i here = i
  Reach-IsSound i (next r st) = Step-IsSound st (Reach-IsSound i r)

  release-undoes :
      (client : Client) (r' : Request) (s s1 v : Machine W) (a b : ℕ)
      → r'.aio_cb ≡ some a
      → (v.aiocbs a).aio_buf ≡ b
      → (t.live a s.os ≡ false) × (t.live b s.os ≡ false)
      → ((c : ℕ) → c ≢ a → c ≢ b → t.live c s1.os ≡ t.live c s.os)
      → SameHeap k t s1 v
      → SameHeap k t s (block_client_release k client r' v).1
  release-undoes client r' s s1 v a b e f fresh others same c =
      let done = block_client_release-Released client r' a v e in
      elim (ℕ_discrete c a) [
        | yes p ↦ rw p (done.dead.0 ∙ sym fresh.0)
        | no p ↦ elim (ℕ_discrete c b) [
          | yes q ↦ rw (q, ← f) (done.dead.1 ∙ rw f (sym fresh.1))
          | no q ↦ done.others c p (λ x. q (x ∙ f)) ∙ same c ∙ others c p q
        ]
      ]

  -- Releasing a request that was allocated gives back exactly what the allocation took, whatever
  -- was done with the request in between (`r'` and `v` are the request and the process then), if it
  -- kept its control block and its buffer and other code left the heap as it was: the heap is the
  -- one before the allocation, and the request is zeroed.
  pub block_client_release-allocate_request :
      (client : Client) (r r' : Request) (s v : Machine W)
      → (block_client_allocate_request k client r s).0.0.status ≡ cai_block_allocated
      → r'.aio_cb ≡ (block_client_allocate_request k client r s).0.0.aio_cb
      → v.aiocbs ≡ (block_client_allocate_request k client r s).1.aiocbs
      → SameHeap k t (block_client_allocate_request k client r s).1 v
      → ((block_client_release k client r' v).0 ≡ zero_request)
        × SameHeap k t s (block_client_release k client r' v).1
  block_client_release-allocate_request client r r' s v st cb memory same = (
    release-zero client r' v,
    elim (block_client_allocate_request-outcome k t client r s) [
      | inl (opcode, a, b, _, h) ↦
          release-undoes client r' s (block_client_allocate_request k client r s).1 v a b
            (cb ∙ rw h.result) (rw (memory, h.control)) h.fresh h.others same
      | inr (inl (_, h, _)) ↦ absurd (zero_ne_one (rw h at st))
      | inr (inr (_, _, h)) ↦ absurd (zero_ne_one (rw h at st))
    ],
  )
