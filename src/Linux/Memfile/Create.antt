-- ===== src/Linux/Memfile/Create.antt =====
-- gneiss_memfd_create.
use native.Mathlib.Decide.{ℕ_discrete}
use ada_interfaces.Base.{
  pos-injective, ◌≢◌, ℕ, ◌≡◌, ◌⊎◌, true, false, pos, is_neg, refl, inl, inr, ℤ-cases, Bool-cases,
  ◌∙◌, sym,
}
use ada_interfaces.Linux.Memfile.{Calls, ftruncate_failed, gneiss_memfd_create}
use ada_interfaces.Linux.Memfile.Laws.{CreateLaws}

module _ {W : Type 0} (k : Calls W) (t : CreateLaws k) where
  -- The descriptor that the failed path closes again.
  dropped :
      (name size n m : ℕ) (w : W)
      → (k.memfd_create name w).0 ≡ pos n
      → let v =
          (k.warn
            (ftruncate_failed name size)
            (k.ftruncate (pos n) size (k.memfd_create name w).1).1).1 in
        t.is_open m (k.close (pos n) v).1 ≡ t.is_open m w
  dropped name size n m w e = elim (ℕ_discrete m n) [
    | yes same ↦ rw same (t.close_self n _ ∙ sym (t.create_fresh name n w e).0)
    | no other ↦
        t.close_other n m _ other
        ∙ t.warn_open _ m _
        ∙ t.truncate_open (pos n) size m _
        ∙ t.create_other name m w (λ q. other (pos-injective (sym q ∙ e)))
  ]

  -- gneiss_memfd_create either returns a descriptor that is open, was not open before and stands for a file of
  -- the size that was asked for, every other descriptor being as it was, or a negative number,
  -- and then every descriptor is as it was: none is left open behind a failure.
  pub gneiss_memfd_create-all_or_nothing :
      (name size : ℕ) (w : W)
      → ((n : ℕ) × ((gneiss_memfd_create k name size w).0 ≡ pos n)
          × (t.is_open n w ≡ false)
          × (t.is_open n (gneiss_memfd_create k name size w).1 ≡ true)
          × (t.file_size n (gneiss_memfd_create k name size w).1 ≡ size)
          × ((m : ℕ) → m ≢ n → t.is_open m (gneiss_memfd_create k name size w).1 ≡ t.is_open m w))
        ⊎ ((is_neg (gneiss_memfd_create k name size w).0 ≡ true)
            × ((m : ℕ) → t.is_open m (gneiss_memfd_create k name size w).1 ≡ t.is_open m w))
  unfolding gneiss_memfd_create
  gneiss_memfd_create-all_or_nothing name size w = elim (ℤ-cases (k.memfd_create name w).0) [
    | inl (n, e) ↦
        rw e (elim (Bool-cases (is_neg (k.ftruncate (pos n) size (k.memfd_create name w).1).0)) [
          | inl f ↦ rw f (inr (refl, λ m. dropped name size n m w e))
          | inr f ↦ rw f (
              inl (
                n,
                refl,
                (t.create_fresh name n w e).0,
                t.truncate_open (pos n) size n _ ∙ (t.create_fresh name n w e).1,
                t.truncate_size n size _ f,
                λ m other.
                    t.truncate_open (pos n) size m _
                    ∙ t.create_other name m w (λ q. other (pos-injective (sym q ∙ e))),
              ))
        ])
    | inr (n, e) ↦ rw e (inr (refl, λ m. t.warn_open _ m _ ∙ t.create_other name m w (λ q. cc)))
  ]
