-- ===== src/Genode/Root/Grant.antt =====
-- Which component a new session gets.
use ada_interfaces.Base.{
  ℕ, ◌≡◌, ◌≤◌, refl, none, some, ltb, max, Proc, le→not-ltb, Option-cases, Bool-cases, inl, inr, ap,
}
use ada_interfaces.Genode.Root.{
  Warning, Rooted, Arguments, granted, service_denied, denied, create_session, conclude,
  dispatch_label, reset,
}

module _ {S A L C : Type 0} (k : Arguments A L) (warn : Warning → A → Proc (Rooted S) (Unit {0}))
    (dispatch : C → L → L → Proc (Rooted S) (Unit {0})) where
  conclude-granted :
      (args : A) (c : ℕ) (s : Rooted S)
      → (conclude k warn dispatch args s).0 ≡ granted c
      → s.accepted ≡ some c
  unfolding conclude
  conclude-granted args c s = elim (Option-cases s.accepted) [
    | inl e ↦ rw e (λ h. cc)
    | inr (d, e) ↦ rw e (λ h. cc)
  ]

  pub conclude-none :
      (args : A) (s : Rooted S)
      → s.accepted ≡ none
      → conclude k warn dispatch args s ≡ (service_denied, (warn denied args s).1)
  unfolding conclude
  conclude-none args s e = rw e refl

  label-same :
      ((cap : C) (name label : L) (s : Rooted S)
        → (dispatch cap name label s).1.accepted ≡ s.accepted)
      → (cap : C) (label : L) (s : Rooted S)
      → (dispatch_label k warn dispatch cap label s).1.accepted ≡ s.accepted
  unfolding dispatch_label
  label-same same cap label s = elim (Bool-cases (ltb 1 (k.length (k.prefix label)))) [
    | inl e ↦ rw e (same cap _ _ s)
    | inr e ↦ rw e (same cap _ _ s)
  ]

  label-granted :
      (P : ℕ → Type 0)
      → ((cap : C) (name label : L) (s : Rooted S) (c : ℕ)
          → s.accepted ≡ none
          → (dispatch cap name label s).1.accepted ≡ some c
          → P c)
      → (cap : C) (label : L) (s : Rooted S) (c : ℕ) → s.accepted ≡ none
      → (dispatch_label k warn dispatch cap label s).1.accepted ≡ some c
      → P c
  unfolding dispatch_label
  label-granted P ok cap label s c = elim (Bool-cases (ltb 1 (k.length (k.prefix label)))) [
    | inl e ↦ rw e (ok cap _ _ s c)
    | inr e ↦ rw e (ok cap _ _ s c)
  ]

  -- What the dispatcher can establish of every component that it accepts for a request, holds of
  -- the component that a session is granted: never is it one accepted for an earlier request.
  pub create_session-granted :
      (P : ℕ → Type 0)
      → ((cap : C) (name label : L) (s : Rooted S) (c : ℕ)
          → s.accepted ≡ none
          → (dispatch cap name label s).1.accepted ≡ some c
          → P c)
      → (size : ℕ) (cap : C) (args : A) (s : Rooted S) (c : ℕ)
      → (create_session k warn dispatch size cap args s).0 ≡ granted c
      → P c
  unfolding create_session reset
  create_session-granted P ok size cap args s c =
      elim (Bool-cases (ltb (k.ram_quota args) (max 4096 size))) [
        | inl e ↦ rw e (λ h. cc)
        | inr e ↦ rw e (λ h.
            label-granted P ok cap (k.label_from_args args) _ c refl (conclude-granted args c _ h))
      ]

  -- A dispatcher that accepts no component for a request with enough quota has the session
  -- denied, whatever it accepted before.
  pub create_session-denied :
      ((cap : C) (name label : L) (s : Rooted S)
        → (dispatch cap name label s).1.accepted ≡ s.accepted)
      → (size : ℕ) (cap : C) (args : A) (s : Rooted S) → max 4096 size ≤ k.ram_quota args
      → (create_session k warn dispatch size cap args s).0 ≡ service_denied
  unfolding create_session reset
  create_session-denied same size cap args s h =
      rw (le→not-ltb (k.ram_quota args) (max 4096 size) h)
        (ap (λ r. r.0) (conclude-none args _ (label-same same cap (k.label_from_args args) _)))
