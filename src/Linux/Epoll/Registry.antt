-- ===== src/Linux/Epoll/Registry.antt =====
-- The epoll wrappers against the table that a caller keeps of what it registered.
use mathlib.Core.Logic.{ite, if_pos, if_neg}
use ada_interfaces.Base.{
  sym, ℕ, ◌≡◌, refl, Bool, true, false, Option, none, some, List, [], ◌∷◌, ℤ, is_neg, ℤ-discrete,
  Bool-cases, inl, inr, ◌⊎◌, Proc, pure, ◌>>=◌, when, if◌then◌else◌, ◌∙◌,
}
use ada_interfaces.Linux.Epoll.{
  Calls, Warning, Priv, delivered, undefined_behaviour, gneiss_epoll_add, gneiss_epoll_remove,
  gneiss_epoll_wait,
}
use ada_interfaces.Linux.Epoll.Laws.{InterestLaws}

pub data Request : Type 0 where
  register : ℤ → Priv → Request
  unregister : ℤ → Request

abbrev pub Table : Type 0
Table = ℤ → Option Priv

unfoldable pub update : ℤ → Option Priv → Table → Table
update fd p t g = ite (ℤ-discrete g fd) p (t g)

-- `success` is what a wrapper reported.
abbrev noted : ℤ → ℤ → Option Priv → Table → Table
noted success fd p t = if is_neg success then t else update fd p t

-- A caller notes what the wrappers report as done.
unfoldable pub serve : {W : Type 0} → Calls W → ℤ → Table → List Request → Proc W Table
serve k efd t [] = pure t
serve k efd t (register fd priv ∷ rs) = do
  success ← gneiss_epoll_add k efd fd priv
  serve k efd (noted success fd (some priv) t) rs
serve k efd t (unregister fd ∷ rs) = do
  success ← gneiss_epoll_remove k efd fd
  serve k efd (noted success fd none t) rs

module _ {W : Type 0} (k : Calls W) (laws : InterestLaws k) where
  abbrev Agrees : ℤ → Table → W → Type 0
  Agrees efd t w = (fd : ℤ) → t fd ≡ laws.interest efd fd w

  when_warn-interest :
      (b : Bool) (c : Warning) (efd g : ℤ) (w : W)
      → laws.interest efd g (when b (k.warn c) w).1 ≡ laws.interest efd g w
  when_warn-interest true c efd g w = laws.warn_same c efd g w
  when_warn-interest false c efd g w = refl

  add-Agrees :
      (efd fd : ℤ) (priv : Priv) (t : Table) (w : W)
      → Agrees efd t w
      → let r = gneiss_epoll_add k efd fd priv w in Agrees efd (noted r.0 fd (some priv) t) r.1
  unfolding gneiss_epoll_add update
  add-Agrees efd fd priv t w h g =
      rw when_warn-interest
        (elim (Bool-cases (is_neg (k.epoll_ctl_add efd fd k.rdhup_in priv w).0)) [
          | inl bad ↦ rw (bad, laws.add_failed efd fd priv g w bad) (h g)
          | inr good ↦ rw good (elim (ℤ-discrete g fd) [
            | yes same ↦ rw (if_pos _ same) (rw same (sym (laws.add_done efd fd priv w good)))
            | no other ↦ rw (if_neg _ other, laws.add_other efd fd priv g w other) (h g)
          ])
        ])

  remove-Agrees :
      (efd fd : ℤ) (t : Table) (w : W)
      → Agrees efd t w
      → let r = gneiss_epoll_remove k efd fd w in Agrees efd (noted r.0 fd none t) r.1
  unfolding gneiss_epoll_remove update
  remove-Agrees efd fd t w h g =
      rw when_warn-interest (elim (Bool-cases (is_neg (k.epoll_ctl_del efd fd w).0)) [
        | inl bad ↦ rw (bad, laws.del_failed efd fd g w bad) (h g)
        | inr good ↦ rw good (elim (ℤ-discrete g fd) [
          | yes same ↦ rw (if_pos _ same) (rw same (sym (laws.del_done efd fd w good)))
          | no other ↦ rw (if_neg _ other, laws.del_other efd fd g w other) (h g)
        ])
      ])

  -- After any sequence of registrations and removals, failing ones among them, the table that
  -- notes the reported successes is the kernel's interest list.
  pub serve-Agrees :
      (efd : ℤ) (t : Table) (rs : List Request) (w : W)
      → ((fd : ℤ) → t fd ≡ laws.interest efd fd w)
      → (fd : ℤ) → (serve k efd t rs w).0 fd ≡ laws.interest efd fd (serve k efd t rs w).1
  unfolding serve
  serve-Agrees efd t [] w h = h
  serve-Agrees efd t (register fd priv ∷ rs) w h =
      serve-Agrees efd (noted (gneiss_epoll_add k efd fd priv w).0 fd (some priv) t) rs _
        (add-Agrees efd fd priv t w h)
  serve-Agrees efd t (unregister fd ∷ rs) w h =
      serve-Agrees efd (noted (gneiss_epoll_remove k efd fd w).0 fd none t) rs _
        (remove-Agrees efd fd t w h)

  -- A wait after them returns the private value of a descriptor that is registered in the table,
  -- and no other, unless epoll_wait fails.
  gneiss_epoll_wait-registered :
      (efd : ℤ) (t : Table) (rs : List Request) (zero : Priv) (w : W)
      → ((fd : ℤ) → t fd ≡ laws.interest efd fd w)
      → is_neg (k.epoll_wait efd 0 zero (serve k efd t rs w).1).0.result ≡ false
      → (fd : ℤ) × (priv : Priv) × (events : ℕ) × ((gneiss_epoll_wait k efd zero
            (serve k efd t rs w).1).0
          ≡ delivered priv events)
        × ((serve k efd t rs w).0 fd ≡ some priv)
  unfolding gneiss_epoll_wait
  gneiss_epoll_wait-registered efd t rs zero w h good =
      let (fd, e) = laws.wait_registered efd zero (serve k efd t rs w).1 good in
      let r = k.epoll_wait efd 0 zero (serve k efd t rs w).1 in
      (fd, r.0.priv, r.0.events, rw good, serve-Agrees efd t rs w h fd ∙ e)

  -- Where epoll_wait fails, as it does when a signal interrupts it, the wrapper runs into
  -- undefined behaviour, for descriptors and for pointers.
  gneiss_epoll_wait-undefined :
      (efd : ℤ) (zero : Priv) (w : W)
      → is_neg (k.epoll_wait efd 0 zero w).0.result ≡ true
      → (gneiss_epoll_wait k efd zero w).0 ≡ undefined_behaviour
  unfolding gneiss_epoll_wait
  gneiss_epoll_wait-undefined efd zero w bad = rw bad

  -- A wait after any sequence of registrations and removals returns the private value that the
  -- table has for a descriptor, and no other, or runs into undefined behaviour, where epoll_wait
  -- fails and only there.
  pub gneiss_epoll_wait-outcome :
      (efd : ℤ) (t : Table) (rs : List Request) (zero : Priv) (w : W)
      → ((fd : ℤ) → t fd ≡ laws.interest efd fd w)
      → let v = (serve k efd t rs w).1 in
        ((is_neg (k.epoll_wait efd 0 zero v).0.result ≡ true)
          × ((gneiss_epoll_wait k efd zero v).0 ≡ undefined_behaviour))
        ⊎ ((is_neg (k.epoll_wait efd 0 zero v).0.result ≡ false)
            × ((fd : ℤ) × (priv : Priv) × (events : ℕ) × ((gneiss_epoll_wait k efd zero v).0
                  ≡ delivered priv events)
                × ((serve k efd t rs w).0 fd ≡ some priv)))
  gneiss_epoll_wait-outcome efd t rs zero w h =
      let v = (serve k efd t rs w).1 in
      elim (Bool-cases (is_neg (k.epoll_wait efd 0 zero v).0.result)) [
        | inl bad ↦ inl (bad, gneiss_epoll_wait-undefined efd zero v bad)
        | inr good ↦ inr (good, gneiss_epoll_wait-registered efd t rs zero w h good)
      ]
