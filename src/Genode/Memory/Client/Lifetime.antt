-- ===== src/Genode/Memory/Client/Lifetime.antt =====
-- What a memory client holds between its initialization and its end.
use native.Mathlib.Decide.{ℕ_discrete}
use ada_interfaces.Genode.Factory.{check_factory}
use ada_interfaces.Base.{
  ℕ, ◌-◌, ◌^◌, ◌≡◌, ◌≢◌, ◌<◌, ◌⊎◌, inl, inr, refl, sym, ◌∙◌, ap, Bool, true, false, Option, none,
  some, List, ℤ, pos, negsuc, to_size, Option-cases, Bool-cases, arith, ltb,
}
use ada_interfaces.Genode.Memory.Client.{
  SessionArgs, Connection, Calls, to_long, session_args, attached, attach_session, connect,
  initialize, address, size, finalize,
}

-- `is_open s w` tells the sessions that are open, `mapped a w` the dataspace that is attached at an
-- address, and `space_of s` the dataspace that the service has for a session. A call that throws
-- changes neither.
pub record RegionLaws {W : Type 0} (k : Calls W) : Type 0 where
  pub is_open : ℕ → W → Bool
  pub mapped : ℕ → W → Option ℕ
  pub space_of : ℕ → ℕ
  pub factory_same :
      (env : Option ℕ) (w : W)
      → ((o : ℕ) → is_open o (k.factory.construct env w).1 ≡ is_open o w)
        × ((a : ℕ) → mapped a (k.factory.construct env w).1 ≡ mapped a w)
  pub constructed_same :
      (w : W)
      → ((o : ℕ) → is_open o (k.factory.constructed w).1 ≡ is_open o w)
        × ((a : ℕ) → mapped a (k.factory.constructed w).1 ≡ mapped a w)
  pub open_given :
      (env : Option ℕ) (args : SessionArgs) (s : ℕ) (w : W)
      → (k.open_session env args w).0 ≡ some s
      → (is_open s w ≡ false)
        × (is_open s (k.open_session env args w).1 ≡ true)
        × ((o : ℕ) → o ≢ s → is_open o (k.open_session env args w).1 ≡ is_open o w)
  pub open_refused :
      (env : Option ℕ) (args : SessionArgs) (w : W)
      → (k.open_session env args w).0 ≡ none
      → (o : ℕ) → is_open o (k.open_session env args w).1 ≡ is_open o w
  pub open_mapped :
      (env : Option ℕ) (args : SessionArgs) (a : ℕ) (w : W)
      → mapped a (k.open_session env args w).1 ≡ mapped a w
  pub dataspace_same :
      (s : ℕ) (w : W)
      → ((k.dataspace s w).0 ≡ space_of s)
        × ((o : ℕ) → is_open o (k.dataspace s w).1 ≡ is_open o w)
        × ((a : ℕ) → mapped a (k.dataspace s w).1 ≡ mapped a w)
  pub attach_given :
      (env : Option ℕ) (cap a : ℕ) (w : W)
      → (k.attach env cap w).0 ≡ some a
      → (mapped a w ≡ none)
        × (mapped a (k.attach env cap w).1 ≡ some cap)
        × ((b : ℕ) → b ≢ a → mapped b (k.attach env cap w).1 ≡ mapped b w)
  pub attach_refused :
      (env : Option ℕ) (cap : ℕ) (w : W)
      → (k.attach env cap w).0 ≡ none
      → (a : ℕ) → mapped a (k.attach env cap w).1 ≡ mapped a w
  pub attach_open :
      (env : Option ℕ) (cap o : ℕ) (w : W) → is_open o (k.attach env cap w).1 ≡ is_open o w
  pub close_done :
      (s : ℕ) (w : W)
      → (is_open s (k.close_session s w).1 ≡ false)
        × ((o : ℕ) → o ≢ s → is_open o (k.close_session s w).1 ≡ is_open o w)
        × ((a : ℕ) → mapped a (k.close_session s w).1 ≡ mapped a w)
  pub destroy_done :
      (c : Connection) (w : W)
      → (is_open c.session (k.destroy_connection (some c) w).1 ≡ false)
        × ((o : ℕ) → o ≢ c.session → is_open o (k.destroy_connection (some c) w).1 ≡ is_open o w)

-- The values of a `long long`.
abbrev pub IsLong : ℤ → Type 0
IsLong (pos n) = n < 2 ^ 63
IsLong (negsuc n) = n < 2 ^ 63

not_below : (n : ℕ) → n < 2 ^ 63 → ltb (2 ^ 64 - 1 - n) (2 ^ 63) ≡ false
not_below n h = ground arith

to_long-to_size : (n : ℤ) → IsLong n → to_long (to_size n) ≡ n
unfolding to_long to_size
to_long-to_size (pos n) h = ground arith
to_long-to_size (negsuc n) h = rw (not_below n h) (ap negsuc (omega arith))

module _ {W : Type 0} (k : Calls W) (t : RegionLaws k) where
  check_factory-same :
      (env : Option ℕ) (w : W)
      → ((o : ℕ) → t.is_open o (check_factory k.factory env w).1 ≡ t.is_open o w)
        × ((a : ℕ) → t.mapped a (check_factory k.factory env w).1 ≡ t.mapped a w)
  unfolding check_factory
  check_factory-same env w =
      let v = (k.factory.constructed w).1 in
      let c = t.constructed_same w in
      elim (Bool-cases (k.factory.constructed w).0) [
        | inl e ↦ rw e c
        | inr e ↦
            rw e (λ o. (t.factory_same env v).0 o ∙ c.0 o, λ a. (t.factory_same env v).1 a ∙ c.1 a)
      ]

  -- The new session is attached at an address that was free, or closed again.
  attach_session-outcome :
      (env : Option ℕ) (n s : ℕ) (w : W)
      → let r = attach_session k env n (some s) w in
        ((a : ℕ) × (r.0 ≡ some (record { session = s; addr = a; size = n }))
          × (t.mapped a w ≡ none)
          × (t.mapped a r.1 ≡ some (t.space_of s))
          × ((b : ℕ) → b ≢ a → t.mapped b r.1 ≡ t.mapped b w)
          × ((o : ℕ) → t.is_open o r.1 ≡ t.is_open o w))
        ⊎ ((r.0 ≡ none)
            × (t.is_open s r.1 ≡ false)
            × ((o : ℕ) → o ≢ s → t.is_open o r.1 ≡ t.is_open o w)
            × ((a : ℕ) → t.mapped a r.1 ≡ t.mapped a w))
  unfolding attach_session attached
  attach_session-outcome env n s w =
      let d = t.dataspace_same s w in
      let v = (k.dataspace s w).1 in
      elim (Option-cases (k.attach env (k.dataspace s w).0 v).0) [
        | inl e ↦
            let u = (k.attach env (k.dataspace s w).0 v).1 in
            let c = t.close_done s u in
            let kept = t.attach_refused env (k.dataspace s w).0 v e in
            rw e (
              inr (
                refl,
                c.0,
                λ o ne. c.1 o ne ∙ t.attach_open env (k.dataspace s w).0 o v ∙ d.1 o,
                λ a. c.2 a ∙ kept a ∙ d.2 a,
              ))
        | inr (a, e) ↦
            let g = t.attach_given env (k.dataspace s w).0 a v e in
            rw e (
              inl (
                a,
                refl,
                sym (d.2 a) ∙ g.0,
                g.1 ∙ ap some d.0,
                λ b ne. g.2 b ne ∙ d.2 b,
                λ o. t.attach_open env (k.dataspace s w).0 o v ∙ d.1 o,
              ))
      ]

  -- Destroying the connection on a new session closes that session only.
  closed_again :
      (c : Connection) (w v u : W)
      → t.is_open c.session w ≡ false
      → ((o : ℕ) → o ≢ c.session → t.is_open o v ≡ t.is_open o w)
      → ((o : ℕ) → t.is_open o u ≡ t.is_open o v)
      → (o : ℕ) → t.is_open o (k.destroy_connection (some c) u).1 ≡ t.is_open o w
  closed_again c w v u shut others same o =
      let d = t.destroy_done c u in
      elim (ℕ_discrete o c.session) [
        | yes e ↦ rw e (d.0 ∙ sym shut)
        | no ne ↦ d.1 o ne ∙ same o ∙ others o ne
      ]

  initialize_lem :
      (env : Option ℕ) (label : List ℕ) (bytes : ℤ) (w : W) (session : Option ℕ)
      → let o =
          k.open_session env
            (session_args label (to_size bytes))
            (check_factory k.factory env w).1 in
        o.0 ≡ session
        → initialize k env label bytes w ≡ attach_session k env (to_size bytes) session o.1
  unfolding initialize connect
  initialize_lem env label bytes w session e = rw e refl

  attach_session-none : (env : Option ℕ) (n : ℕ) (w : W) → attach_session k env n none w ≡ (none, w)
  unfolding attach_session
  attach_session-none env n w = refl

  -- A client gets all or nothing, for every size that a `long long` can have. Either it is
  -- initialized: its session is open, its address was free and has the session's dataspace, its
  -- size is the one asked for, no other address changes, and after finalize the sessions that are
  -- open are those of before. Or it is not, whichever step failed: then no session was left open
  -- and nothing attached.
  pub finalize-initialize :
      (env : Option ℕ) (label : List ℕ) (bytes : ℤ) (w : W)
      → IsLong bytes
      → let r = initialize k env label bytes w in
        ((c : Connection) × (r.0 ≡ some c)
          × (size k r.0 ≡ some bytes)
          × (address k r.0 ≡ some c.addr)
          × (t.is_open c.session r.1 ≡ true)
          × (t.mapped c.addr w ≡ none)
          × (t.mapped c.addr r.1 ≡ some (t.space_of c.session))
          × ((a : ℕ) → a ≢ c.addr → t.mapped a r.1 ≡ t.mapped a w)
          × ((o : ℕ) → t.is_open o (finalize k r.0 r.1).1 ≡ t.is_open o w))
        ⊎ ((r.0 ≡ none)
            × ((o : ℕ) → t.is_open o r.1 ≡ t.is_open o w)
            × ((a : ℕ) → t.mapped a r.1 ≡ t.mapped a w))
  unfolding size address finalize
  finalize-initialize env label bytes w fits =
      let n = to_size bytes in
      let args = session_args label n in
      let f = check_factory-same env w in
      let w1 = (check_factory k.factory env w).1 in
      let v = (k.open_session env args w1).1 in
      let untouched : (a : ℕ) → t.mapped a v ≡ t.mapped a w =
        λ a. t.open_mapped env args a w1 ∙ f.1 a in
      elim (Option-cases (k.open_session env args w1).0) [
        | inl e ↦
            rw (initialize_lem env label bytes w none e, attach_session-none env n v)
              (inr (refl, λ o. t.open_refused env args w1 e o ∙ f.0 o, untouched))
        | inr (s, e) ↦
            let g = t.open_given env args s w1 e in
            rw (initialize_lem env label bytes w (some s) e)
              (elim (attach_session-outcome env n s v) [
                | inl (a, made, free, here, others, same) ↦ rw made (
                    inl (
                      record { session = s; addr = a; size = n },
                      refl,
                      ap some (to_long-to_size bytes fits),
                      refl,
                      same s ∙ g.1,
                      sym (untouched a) ∙ free,
                      here,
                      λ b ne. others b ne ∙ untouched b,
                      λ o. closed_again _ w1 v _ g.0 g.2 same o ∙ f.0 o,
                    ))
                | inr (failed, shut, same, kept) ↦ rw failed (
                    inr (
                      refl,
                      λ o. elim (ℕ_discrete o s) [
                        | yes here ↦ rw here (shut ∙ sym g.0 ∙ f.0 s)
                        | no ne ↦ same o ne ∙ g.2 o ne ∙ f.0 o
                      ],
                      λ a. kept a ∙ untouched a,
                    ))
              ])
      ]
