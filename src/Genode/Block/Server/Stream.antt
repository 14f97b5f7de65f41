-- ===== src/Genode/Block/Server/Stream.antt =====
-- What the block server relies on of Genode's request stream.
use ada_interfaces.Base.{ℕ, zero, suc, ◌-◌, ◌≡◌, Option, none, some, List, [], ◌∷◌, ◌++◌, ℤ, length}
use ada_interfaces.Genode.Block.Server.{Request, Response, accepted, rejected, retry, Taken, Calls}

-- with_requests hands the waiting requests to a function, oldest first, until that answers RETRY.
-- What it accepts or rejects is removed from the stream.
unfoldable pub feed :
    (Request → Taken → Response × Taken) → List Request → Taken → Taken × List Request
feed f [] t = (t, [])
feed f (r ∷ rs) t =
    let rest = feed f rs (f r t).1 in
    elim (f r t).0 [ accepted ↦ rest | rejected ↦ rest | retry ↦ ((f r t).1, r ∷ rs) ]

-- try_acknowledge offers one free slot after the other, until the function submits nothing.
unfoldable pub fill : (ℤ → Option Request × ℤ) → ℕ → ℤ → List Request × ℤ
fill f zero s = ([], s)
fill f (suc n) s =
    let rest = fill f n (f s).1 in
    elim (f s).0 [ none ↦ ([], (f s).1) | some r ↦ (r ∷ rest.0, rest.1) ]

-- Of the stream in the root at an address: the requests that wait, the free slots for
-- acknowledgements, and the acknowledgements that were submitted, oldest first.
pub record StreamLaws {W : Type 0} (k : Calls W) : Type 0 where
  pub pending : ℕ → W → List Request
  pub slots : ℕ → W → ℕ
  pub acked : ℕ → W → List Request
  pub requests_fed :
      (p : ℕ) (f : Request → Taken → Response × Taken) (t : Taken) (w : W)
      → ((k.with_requests (some p) f t w).0 ≡ (feed f (pending p w) t).0)
        × (pending p (k.with_requests (some p) f t w).1 ≡ (feed f (pending p w) t).1)
        × (slots p (k.with_requests (some p) f t w).1 ≡ slots p w)
        × (acked p (k.with_requests (some p) f t w).1 ≡ acked p w)
  pub slots_filled :
      (p : ℕ) (f : ℤ → Option Request × ℤ) (s : ℤ) (w : W)
      → ((k.try_acknowledge (some p) f s w).0 ≡ (fill f (slots p w) s).1)
        × (acked p (k.try_acknowledge (some p) f s w).1 ≡ acked p w ++ (fill f (slots p w) s).0)
        × (slots p (k.try_acknowledge (some p) f s w).1
            ≡ slots p w - length (fill f (slots p w) s).0)
        × (pending p (k.try_acknowledge (some p) f s w).1 ≡ pending p w)
