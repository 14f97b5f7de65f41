-- ===== src/Linux/Descriptor/Close.antt =====
-- gneiss_close and gneiss_dup against the descriptor table.
use native.Mathlib.Decide.{ℕ_discrete}
use ada_interfaces.Base.{
  pos-injective, ℤ, negsuc, sym, ◌∙◌, ℕ, ◌≡◌, ◌≢◌, refl, Bool, true, false, pos, minus_one, when,
}
use ada_interfaces.Linux.Descriptor.{Calls, Warning, gneiss_close, gneiss_dup}
use ada_interfaces.Linux.Descriptor.Table.{DescriptorLaws}

module _ {W : Type 0} (k : Calls W) (t : DescriptorLaws k) where
  when_warn-is_open :
      (b : Bool) (c : Warning) (n : ℕ) (w : W) → t.is_open n (when b (k.warn c) w).1 ≡ t.is_open n w
  when_warn-is_open true c n w = t.warn_same c n w
  when_warn-is_open false c n w = refl

  -- Closing an open or a stale descriptor leaves -1 in the variable and that descriptor closed,
  -- reported error or not, and no other descriptor changes.
  gneiss_close-releases :
      (n : ℕ) (w : W)
      → ((gneiss_close k (pos n) w).0 ≡ minus_one)
        × (t.is_open n (gneiss_close k (pos n) w).1 ≡ false)
        × ((m : ℕ) → m ≢ n → t.is_open m (gneiss_close k (pos n) w).1 ≡ t.is_open m w)
  unfolding gneiss_close
  gneiss_close-releases n w = (
    refl,
    rw when_warn-is_open (t.close_self n w),
    λ m h. rw when_warn-is_open (t.close_other n m w h),
  )

  -- A second gneiss_close of the variable that the first one left does nothing at all.
  gneiss_close-gneiss_close :
      (fd : ℤ) (w : W)
      → gneiss_close k (gneiss_close k fd w).0 (gneiss_close k fd w).1 ≡ gneiss_close k fd w
  unfolding gneiss_close
  gneiss_close-gneiss_close (pos n) w = refl
  gneiss_close-gneiss_close (negsuc n) w = refl

  -- Closing an open or a stale descriptor leaves -1 in the variable and that descriptor closed,
  -- reported error or not, no other descriptor changes, and to close the variable once more does
  -- nothing at all.
  pub gneiss_close-outcome :
      (n : ℕ) (w : W)
      → let s = gneiss_close k (pos n) w in
        (s.0 ≡ minus_one)
        × (t.is_open n s.1 ≡ false)
        × ((m : ℕ) → m ≢ n → t.is_open m s.1 ≡ t.is_open m w)
        × (gneiss_close k s.0 s.1 ≡ s)
  gneiss_close-outcome n w =
      let r = gneiss_close-releases n w in (r.0, r.1, r.2, gneiss_close-gneiss_close (pos n) w)

  -- A duplicate survives the closing of its original, and closing the duplicate restores the
  -- table: dup then close of the copy leaves every descriptor as it was.
  pub gneiss_close-gneiss_dup :
      (fd : ℤ) (n m : ℕ) (w : W)
      → (gneiss_dup k fd w).0 ≡ pos n
      → t.is_open m (gneiss_close k (pos n) (gneiss_dup k fd w).1).1 ≡ t.is_open m w
  unfolding gneiss_dup
  gneiss_close-gneiss_dup fd n m w e = elim (ℕ_discrete m n) [
    | yes same ↦ rw same ((gneiss_close-releases n _).1 ∙ sym (t.dup_fresh fd n w e))
    | no other ↦
        (gneiss_close-releases n _).2 m other
        ∙ when_warn-is_open _ _ m _
        ∙ t.dup_other fd m w (λ q. other (pos-injective (sym q ∙ e)))
  ]
