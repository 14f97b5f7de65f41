-- ===== src/Linux/Broker/Lookup/Match.antt =====
-- Which service of a component is chosen for a request.
use ada_interfaces.Base.{
  ℕ, zero, suc, ◌<◌, ◌≡◌, ◌≢◌, ◌⊎◌, ◌==◌, ==_iff, refl, sym, ap, ap₂, ◌∙◌, true, false, ◌&&◌,
  Bool-cases, inl, inr, some, List, [], ◌∷◌, ◌++◌, length, arith,
}
use ada_interfaces.Linux.Packet.Format.{Kind}
use ada_interfaces.Linux.Broker.Lookup.{
  Xml, Answer, found, not_found, failed, attr_label, same_text, compare, matches, default_after,
  match_loop, match_service,
}

-- The services of one kind from a node on, in the order of the document, as SXML finds them.
pub record XmlLaws {N : Type 0} (x : Xml N) : Type 0 where
  pub services : N → Kind → List N
  pub services_none :
      (q : N) (kind : Kind)
      → (x.is_ok q && x.is_ok (x.find_service q kind)) ≡ false
      → services q kind ≡ []
  pub services_next :
      (q : N) (kind : Kind)
      → (x.is_ok q && x.is_ok (x.find_service q kind)) ≡ true
      → services q kind ≡ x.find_service q kind ∷ services (x.sibling (x.find_service q kind)) kind

same_text_refl : (c : List ℕ) → same_text c c ≡ true
same_text_refl [] = refl
same_text_refl (c ∷ cs) = let e : (c == c) ≡ true = ground arith in rw (e, same_text_refl cs) refl

same_text-eq : (u c : List ℕ) → same_text u c ≡ true → u ≡ c
same_text-eq [] [] h = refl
same_text-eq [] (c ∷ cs) h = cc
same_text-eq (u ∷ us) [] h = cc
same_text-eq (u ∷ us) (c ∷ cs) h = elim (Bool-cases (u == c)) [
  | inl same ↦ ap₂ ◌∷◌ ((==_iff u c).0 same) (same_text-eq us cs (rw same at h))
  | inr other ↦ let bad = rw other at h in cc
]

matches-found :
    (a : Answer) (text : List ℕ) → matches a text ≡ true → (a ≡ found text) × (text ≢ [])
unfolding matches compare
matches-found (found v) [] h = cc
matches-found (found v) (c ∷ cs) h = (ap found (same_text-eq v (c ∷ cs) h), λ e. cc)
matches-found not_found text h = cc
matches-found failed text h = cc

found-matches : (text : List ℕ) → text ≢ [] → matches (found text) text ≡ true
unfolding matches compare
found-matches [] h = absurd (h refl)
found-matches (c ∷ cs) h = same_text_refl (c ∷ cs)

module _ {N : Type 0} (x : Xml N) where
  -- A service with exactly that label, which is not empty.
  abbrev pub Carries : List ℕ → N → Type 0
  Carries label s = (x.attribute s attr_label ≡ found label) × (label ≢ [])

  abbrev pub HasNoLabel : N → Type 0
  HasNoLabel s = x.attribute s attr_label ≡ not_found

  abbrev pub Nowhere : (N → Type 0) → List N → Type 0
  Nowhere P [] = Unit {0}
  Nowhere P (s ∷ ss) = (P s → ⊥) × Nowhere P ss

  -- The first of the services with the property, and the last.
  abbrev pub IsFirst : (N → Type 0) → List N → N → Type 0
  IsFirst P ss r = (before after : List N) × (ss ≡ before ++ r ∷ after) × P r × Nowhere P before

  abbrev pub IsLast : (N → Type 0) → List N → N → Type 0
  IsLast P ss r = (before after : List N) × (ss ≡ before ++ r ∷ after) × P r × Nowhere P after

  -- The first service that carries the label; if there is none, the last one without a label; and
  -- if there is none either, `default`.
  abbrev pub IsChoice : List ℕ → List N → N → N → Type 0
  IsChoice label ss default r =
      IsFirst (Carries label) ss r
      ⊎ (Nowhere (Carries label) ss
          × (IsLast HasNoLabel ss r ⊎ ((r ≡ default) × Nowhere HasNoLabel ss)))

  cons-IsLast :
      (s : N) (ss : List N) (default r : N) (a : Answer)
      → x.attribute s attr_label ≡ a
      → r ≡ default_after a s default
      → Nowhere HasNoLabel ss
      → IsLast HasNoLabel (s ∷ ss) r ⊎ ((r ≡ default) × Nowhere HasNoLabel (s ∷ ss))
  cons-IsLast s ss default r not_found e h after =
      inl ([], ss, ap (λ q. q ∷ ss) (sym h), ap (λ q. x.attribute q attr_label) h ∙ e, after)
  cons-IsLast s ss default r (found v) e h after = inr (h, ((λ q. cc), after))
  cons-IsLast s ss default r failed e h after = inr (h, ((λ q. cc), after))

  -- One more service in front.
  cons-IsChoice :
      (label : List ℕ) (s : N) (ss : List N) (default r : N)
      → (Carries label s → ⊥)
      → IsChoice label ss (default_after (x.attribute s attr_label) s default) r
      → IsChoice label (s ∷ ss) default r
  cons-IsChoice label s ss default r bad (inl (before, after, e, c, h)) =
      inl (s ∷ before, after, ap (◌∷◌ s) e, c, (bad, h))
  cons-IsChoice label s ss default r bad (inr (nowhere, inl (before, after, e, c, h))) =
      inr ((bad, nowhere), inl (s ∷ before, after, ap (◌∷◌ s) e, c, h))
  cons-IsChoice label s ss default r bad (inr (nowhere, inr (e, h))) =
      inr ((bad, nowhere), cons-IsLast s ss default r (x.attribute s attr_label) refl e h)

  module _ (t : XmlLaws x) where
    match_loop-IsChoice :
        (ss : List N) (fuel : ℕ) (q : N) (kind : Kind) (label : List ℕ) (default : N)
        → t.services q kind ≡ ss
        → length ss < fuel
        → (r : N) × (match_loop x fuel q kind label default ≡ some r) × IsChoice label ss default r
    unfolding match_loop
    match_loop-IsChoice ss zero q kind label default e h = absurd (omega arith)
    match_loop-IsChoice [] (suc fuel) q kind label default e h =
        elim (Bool-cases (x.is_ok q && x.is_ok (x.find_service q kind))) [
          | inl more ↦ let c = t.services_next q kind more in cc
          | inr end ↦ rw end (default, refl, inr (tt, inr (refl, tt)))
        ]
    match_loop-IsChoice (s ∷ ss) (suc fuel) q kind label default e h =
        elim (Bool-cases (x.is_ok q && x.is_ok (x.find_service q kind))) [
          | inl more ↦
              let c = t.services_next q kind more in
              let head : x.find_service q kind ≡ s = cc in
              let tail : t.services (x.sibling (x.find_service q kind)) kind ≡ ss = cc in
              let (r, found_later, chosen) =
                match_loop-IsChoice ss fuel (x.sibling s) kind label
                  (default_after (x.attribute s attr_label) s default) (rw head at tail)
                  (omega arith) in
              elim (Bool-cases (matches (x.attribute s attr_label) label)) [
                | inl here ↦
                    rw (more, head, here)
                      (s, refl, inl ([], ss, refl, matches-found _ label here, tt))
                | inr elsewhere ↦
                    rw (more, head, elsewhere)
                      (
                        r,
                        found_later,
                        cons-IsChoice label s ss default r
                            (λ q.
                              let b = found-matches label q.1 in let f = rw q.0 at elsewhere in cc)
                            chosen,
                      )
              ]
          | inr end ↦ let c = t.services_none q kind end in cc
        ]

    -- With more fuel than the component has services of the kind, the loop ends. It chooses the
    -- first service that has exactly the label of the request, which is not empty; if there is
    -- none, the last one that has no label; if there is none either, the invalid state.
    pub match_service-IsChoice :
        (fuel : ℕ) (comp : N) (kind : Kind) (label : List ℕ)
        → length (t.services (x.child comp) kind) < fuel
        → (r : N) × (match_service x fuel comp kind label ≡ some r)
          × IsChoice label (t.services (x.child comp) kind) x.invalid_state r
    unfolding match_service
    match_service-IsChoice fuel comp kind label h =
        match_loop-IsChoice (t.services (x.child comp) kind) fuel (x.child comp) kind label
          x.invalid_state refl h
