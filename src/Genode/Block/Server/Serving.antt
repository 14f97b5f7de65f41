-- ===== src/Genode/Block/Server/Serving.antt =====
-- Taking requests from the stream and acknowledging them.
use mathlib.Core.List.{append-nil, append_assoc}
use ada_interfaces.Base.{
  ℕ, zero, suc, ◌-◌, ◌≡◌, ◌≤◌, refl, some, List, [], ◌∷◌, ◌++◌, map, length, ap, ap₂, take, ◌∙◌,
  sym, arith, ℤ, pos, is_nonzero, Proc, pure, ◌>>=◌, when,
}
use ada_interfaces.Genode.Block.Server.{
  Request, Calls, Server, take_one, submit_one, process_request, acknowledge,
}
use ada_interfaces.Genode.Block.Server.Stream.{StreamLaws, feed, fill}

-- The request that process_request leaves, and the requests that wait after it.
unfoldable pub next : Request → List Request → (ℤ × Request) × List Request
next old [] = ((pos 0, old), [])
next old (r ∷ rs) = ((pos 1, r), rs)

feed-take_one :
    (rs : List Request) (r : Request)
    → feed take_one rs (record { success = pos 1; req = r })
      ≡ (record { success = pos 1; req = r }, rs)
unfolding feed take_one
feed-take_one [] r = refl
feed-take_one (x ∷ rs) r = refl

feed-next :
    (old : Request) (rs : List Request)
    → let t = feed take_one rs (record { success = pos 0; req = old }) in
      ((t.0.success, t.0.req), t.1) ≡ next old rs
unfolding feed take_one next
feed-next old [] = refl
feed-next old (r ∷ rs) = rw (feed-take_one rs r) refl

-- What one acknowledgement adds with that many slots, and what it reports.
unfoldable pub posted : Request → ℕ → List Request × ℤ
posted r zero = ([], pos 0)
posted r (suc n) = (r ∷ [], pos 1)

fill-posted : (r : Request) (n : ℕ) → fill (submit_one r) n (pos 0) ≡ posted r n
unfolding fill submit_one posted
fill-posted r zero = refl
fill-posted r (suc zero) = refl
fill-posted r (suc (suc n)) = refl

posted_slots : (r : Request) (n : ℕ) → n - length (posted r n).0 ≡ n - 1
unfolding posted
posted_slots r zero = omega arith
posted_slots r (suc n) = refl

-- A request with the result that the server gives for it.
abbrev pub answered : (Request → ℤ) → Request → Request
answered handler r = record r { success = is_nonzero (handler r) }

-- What the first of the requests takes of the slots, and what is left of them for the others.
posted-take :
    (handler : Request → ℤ) (n : ℕ) (r : Request) (rs : List Request)
    → (posted (answered handler r) n).0 ++ map (answered handler) (take (n - 1) rs)
      ≡ map (answered handler) (take n (r ∷ rs))
unfolding posted
posted-take handler zero r rs = refl
posted-take handler (suc n) r rs =
    let less : suc n - 1 ≡ n = omega arith in
    ap (λ m. answered handler r ∷ map (answered handler) (take m rs)) less

-- Without requests nothing is acknowledged.
none_acked :
    (handler : Request → ℤ) (n : ℕ) (q : List Request) → q ≡ q ++ map (answered handler) (take n [])
none_acked handler zero q = sym (append-nil q)
none_acked handler (suc n) q = sym (append-nil q)

module _ {W : Type 0} (k : Calls W) (this : Server) where
  -- A server that answers every request that waits with `handler`, one after the other.
  unfoldable pub serve_all : (Request → ℤ) → ℕ → Request → Proc W (Unit {0})
  serve_all handler zero old = pure tt
  serve_all handler (suc n) old = do
    s ← process_request k this old
    when (is_nonzero s.0) (do _ ← acknowledge k this s.1 (handler s.1); serve_all handler n s.1)

module _ {W : Type 0} (k : Calls W) (t : StreamLaws k) (this : Server) (p : ℕ)
    (here : this.session ≡ some p) where
  -- process_request takes the oldest of the waiting requests and no other, or reports that there
  -- is none and leaves the request as it was.
  pub process_request-next :
      (old : Request) (w : W)
      → ((process_request k this old w).0, t.pending p (process_request k this old w).1)
        ≡ next old (t.pending p w)
  unfolding process_request
  process_request-next old w =
      let law = t.requests_fed p take_one (record { success = pos 0; req = old }) w in
      rw (here, law.0, law.1) (feed-next old (t.pending p w))

  process_request-same :
      (old : Request) (w : W)
      → (t.slots p (process_request k this old w).1 ≡ t.slots p w)
        × (t.acked p (process_request k this old w).1 ≡ t.acked p w)
  unfolding process_request
  process_request-same old w =
      let law = t.requests_fed p take_one (record { success = pos 0; req = old }) w in
      rw here (law.2, law.3)

  -- acknowledge submits the request with its result to one slot, once, and says so; without a
  -- free slot it submits nothing, and says so. The requests that wait stay.
  pub acknowledge-posted :
      (r : Request) (success : ℤ) (w : W)
      → let r' = record r { success = is_nonzero success } in
        let s = acknowledge k this r success w in
        (s.0 ≡ ((posted r' (t.slots p w)).1, r'))
        × (t.acked p s.1 ≡ t.acked p w ++ (posted r' (t.slots p w)).0)
        × (t.slots p s.1 ≡ t.slots p w - 1)
        × (t.pending p s.1 ≡ t.pending p w)
  unfolding acknowledge
  acknowledge-posted r success w =
      let r' = record r { success = is_nonzero success } in
      let law = t.slots_filled p (submit_one r') (pos 0) w in
      rw (here) (
        ap (λ s. (s, r')) (law.0 ∙ ap (λ q. q.1) (fill-posted r' (t.slots p w))),
        law.1 ∙ ap (λ q. t.acked p w ++ q.0) (fill-posted r' (t.slots p w)),
        law.2
            ∙ ap (λ q. t.slots p w - length q.0) (fill-posted r' (t.slots p w))
            ∙ posted_slots r' (t.slots p w),
        law.3,
      )

  serve_all-rest :
      (handler : Request → ℤ) (n : ℕ) (old : Request) (rs : List Request) (w : W)
      → t.pending p w ≡ rs
      → length rs ≤ n
      → (t.pending p (serve_all k this handler n old w).1 ≡ [])
        × (t.acked p (serve_all k this handler n old w).1
            ≡ t.acked p w ++ map (answered handler) (take (t.slots p w) rs))
  unfolding serve_all next posted
  serve_all-rest handler zero old [] w e h = (e, none_acked handler (t.slots p w) (t.acked p w))
  serve_all-rest handler zero old (r ∷ rs) w e h = absurd (omega arith)
  serve_all-rest handler (suc n) old [] w e h =
      let nothing = process_request-next old w ∙ ap (next old) e in
      let same = process_request-same old w in
      rw (ap (λ q. q.0) nothing)
        (ap (λ q. q.1) nothing, same.1 ∙ none_acked handler (t.slots p w) (t.acked p w))
  serve_all-rest handler (suc n) old (r ∷ rs) w e h =
      let one = process_request-next old w ∙ ap (next old) e in
      let same = process_request-same old w in
      let w' = (process_request k this old w).1 in
      let done = acknowledge-posted r (handler r) w' in
      let w'' = (acknowledge k this r (handler r) w').1 in
      let added = done.1 ∙ ap₂ (λ q m. q ++ (posted (answered handler r) m).0) same.1 same.0 in
      let left : t.slots p w'' ≡ t.slots p w - 1 = done.2 ∙ ap (λ m. m - 1) same.0 in
      let rest = serve_all-rest handler n r rs w'' (done.3 ∙ ap (λ q. q.1) one) (omega arith) in
      rw (ap (λ q. q.0) one) (
        rest.0,
        rest.1
            ∙ ap₂ (λ q m. q ++ map (answered handler) (take m rs)) added left
            ∙ append_assoc (t.acked p w) (posted (answered handler r) (t.slots p w)).0 _
            ∙ ap (λ q. t.acked p w ++ q) (posted-take handler (t.slots p w) r rs),
      )

  -- A server that calls process_request and acknowledge in turn until no request waits (`serve_all`,
  -- counted in rounds) ends: after as many rounds as requests wait, or more, none is left. As many
  -- of them as there are free slots, the oldest first, are acknowledged once, in the order of
  -- arrival, each with its own result; the others are gone without an acknowledgement.
  pub serve_all-acked :
      (handler : Request → ℤ) (n : ℕ) (old : Request) (w : W)
      → length (t.pending p w) ≤ n
      → let w' = (serve_all k this handler n old w).1 in
        (t.pending p w' ≡ [])
        × (t.acked p w'
            ≡ t.acked p w ++ map (answered handler) (take (t.slots p w) (t.pending p w)))
  serve_all-acked handler n old w h = serve_all-rest handler n old (t.pending p w) w refl h
