-- ===== src/Linux/Memfile/Seals.antt =====
-- gneiss_memfd_seal.
use ada_interfaces.Base.{◌⊎◌, false, ◌≡◌, true, ℤ, pos, arith, Bool-cases, inl, inr, ap, sym, ◌∙◌}
use ada_interfaces.Linux.Memfile.{Calls, gneiss_memfd_seal}
use ada_interfaces.Linux.Memfile.Laws.{SealLaws, SealSet, add}

module _ {W : Type 0} (k : Calls W) (t : SealLaws k) where
  -- Reported success means that all three seals are on the file.
  gneiss_memfd_seal_complete :
      (fd : ℤ) (w : W)
      → (gneiss_memfd_seal k fd w).0 ≡ pos 1
      → t.seals fd (gneiss_memfd_seal k fd w).1 ≡ record { shrink = true; grow = true; seal = true }
  unfolding gneiss_memfd_seal add
  gneiss_memfd_seal_complete fd w h = grind (arith, t.add_done, t.add_failed, t.warn_same)

  -- Whatever is reported, a file that was not sealed before carries F_SEAL_SEAL afterwards only
  -- together with the other two, and exactly if success is reported.
  gneiss_memfd_seal-locked :
      (fd : ℤ) (w : W)
      → (t.seals fd w).seal ≡ false
      → ((gneiss_memfd_seal k fd w).0 ≡ pos 1
          × (t.seals fd (gneiss_memfd_seal k fd w).1
              ≡ record { shrink = true; grow = true; seal = true }))
        ⊎ ((gneiss_memfd_seal k fd w).0 ≡ pos 0
            × ((t.seals fd (gneiss_memfd_seal k fd w).1).seal ≡ false))
  unfolding gneiss_memfd_seal add
  gneiss_memfd_seal-locked fd w h = grind (arith, t.add_done, t.add_failed, t.warn_same)

  -- On a sealed file failure is reported, and its seals stay.
  gneiss_memfd_seal-sealed :
      (fd : ℤ) (w : W)
      → (t.seals fd w).seal ≡ true
      → ((gneiss_memfd_seal k fd w).0 ≡ pos 0)
        × (t.seals fd (gneiss_memfd_seal k fd w).1 ≡ t.seals fd w)
  unfolding gneiss_memfd_seal add
  gneiss_memfd_seal-sealed fd w h = grind (arith, t.add_sealed, t.add_failed, t.warn_same)

  -- Either success is reported: the file was not sealed before, and has all three seals now. Or
  -- failure is: F_SEAL_SEAL is on the file exactly if it was before, so that a file is never
  -- closed to further seals with one of the other two missing.
  pub gneiss_memfd_seal-outcome :
      (fd : ℤ) (w : W)
      → ((gneiss_memfd_seal k fd w).0 ≡ pos 1
          × ((t.seals fd w).seal ≡ false)
          × (t.seals fd (gneiss_memfd_seal k fd w).1
              ≡ record { shrink = true; grow = true; seal = true }))
        ⊎ ((gneiss_memfd_seal k fd w).0 ≡ pos 0
            × ((t.seals fd (gneiss_memfd_seal k fd w).1).seal ≡ (t.seals fd w).seal))
  gneiss_memfd_seal-outcome fd w = elim (Bool-cases (t.seals fd w).seal) [
    | inl e ↦ let s = gneiss_memfd_seal-sealed fd w e in inr (s.0, ap SealSet.seal s.1)
    | inr e ↦ elim (gneiss_memfd_seal-locked fd w e) [
      | inl (ok, all) ↦ inl (ok, e, all)
      | inr (failed, still) ↦ inr (failed, still ∙ sym e)
    ]
  ]
