-- ===== src/Genode/Log/Accounts.antt =====
-- Which components a set of servers holds.
use native.Mathlib.Decide.{ℕ_discrete}
use ada_interfaces.Base.{
  ℕ, ◌≡◌, ◌≢◌, ◌⊎◌, Bool, true, false, Option, none, some, Bool-cases, inl, inr, ◌∙◌, sym, ap,
  subst, refl,
}
use ada_interfaces.Genode.Log.Lifetime.{some-injective}

-- Every component that a server refers to exists, names that server, and is none of the components
-- `base`, which exist too; and no other component exists.
pub record Accounts (base live : ℕ → Bool) (component : ℕ → Option ℕ) (owner : ℕ → ℕ) : Type 0 where
  pub owned : (n c : ℕ) → component n ≡ some c → (live c ≡ true) × (owner c ≡ n) × (base c ≡ false)
  pub kept : (b : ℕ) → base b ≡ true → live b ≡ true
  pub accounted : (b : ℕ) → live b ≡ true → (base b ≡ true) ⊎ ((n : ℕ) × (component n ≡ some b))

differ : (live : ℕ → Bool) (b c : ℕ) → live b ≡ true → live c ≡ false → b ≢ c
differ live b c t f e = cc

none_ne_some : (c : ℕ) → ◌≢◌ {A = Option ℕ} none (some c)
none_ne_some c e = cc

pub start-Accounts :
    (live : ℕ → Bool) (component : ℕ → Option ℕ) (owner : ℕ → ℕ)
    → ((n : ℕ) → component n ≡ none)
    → Accounts live live component owner
start-Accounts live component owner blank = record {
  owned = λ n c h. absurd (none_ne_some c (sym (blank n) ∙ h));
  kept = λ b h. h;
  accounted = λ b h. inl h;
}

module _ (base live : ℕ → Bool) (component : ℕ → Option ℕ) (owner : ℕ → ℕ)
    (accounts : Accounts base live component owner) where
  not_base : (c : ℕ) → live c ≡ false → base c ≡ false
  not_base c fresh = elim (Bool-cases (base c)) [
    | inl b ↦ absurd (differ live c c (accounts.kept c b) fresh refl)
    | inr b ↦ b
  ]

  -- Without a component at any server only the others exist.
  pub closed-Accounts : ((n : ℕ) → component n ≡ none) → (b : ℕ) → live b ≡ base b
  closed-Accounts closed b = elim (Bool-cases (live b)) [
    | inl here ↦ elim (accounts.accounted b here) [
      | inl e ↦ here ∙ sym e
      | inr (n, e) ↦ absurd (none_ne_some b (sym (closed n) ∙ e))
    ]
    | inr gone ↦ gone ∙ sym (not_base b gone)
  ]

module _ (base live live' : ℕ → Bool) (component component' : ℕ → Option ℕ) (owner owner' : ℕ → ℕ)
    (accounts : Accounts base live component owner) where
  pub same-Accounts :
      ((b : ℕ) → live' b ≡ live b)
      → ((n : ℕ) → component' n ≡ component n)
      → ((c : ℕ) → owner' c ≡ owner c)
      → Accounts base live' component' owner'
  same-Accounts l m o = record {
    owned =
        λ n c h. let old = accounts.owned n c (sym (m n) ∙ h) in (l c ∙ old.0, o c ∙ old.1, old.2);
    kept = λ b h. l b ∙ accounts.kept b h;
    accounted = λ b h. elim (accounts.accounted b (sym (l b) ∙ h)) [
      | inl base ↦ inl base
      | inr (n, e) ↦ inr (n, m n ∙ e)
    ];
  }

  module _ (server c : ℕ) where
    -- A component that was made for a server without one.
    pub made-Accounts :
        (live c ≡ false)
        → (live' c ≡ true)
        → ((b : ℕ) → b ≢ c → live' b ≡ live b)
        → component server ≡ none
        → component' server ≡ some c
        → ((n : ℕ) → n ≢ server → component' n ≡ component n)
        → owner' c ≡ server
        → ((d : ℕ) → d ≢ c → owner' d ≡ owner d)
        → Accounts base live' component' owner'
    made-Accounts fresh here others blank given elsewhere names keeps = record {
      owned = λ n d h. elim (ℕ_discrete n server) [
        | yes e ↦
            let p : d ≡ c = some-injective (sym h ∙ ap component' e ∙ given) in
            rw p (here, names ∙ sym e, not_base base live component owner accounts c fresh)
        | no ne ↦
            let old = accounts.owned n d (sym (elsewhere n ne) ∙ h) in
            let other = differ live d c old.0 fresh in
            (others d other ∙ old.0, keeps d other ∙ old.1, old.2)
      ];
      kept = λ b h. let old = accounts.kept b h in others b (differ live b c old fresh) ∙ old;
      accounted = λ b h. elim (ℕ_discrete b c) [
        | yes e ↦ inr (server, rw e given)
        | no ne ↦ elim (accounts.accounted b (sym (others b ne) ∙ h)) [
          | inl base ↦ inl base
          | inr (n, e) ↦
              inr (n, elsewhere n (λ s. none_ne_some b (sym blank ∙ ap component (sym s) ∙ e)) ∙ e)
        ]
      ];
    }

    -- The component of a server that was destroyed.
    pub destroyed-Accounts :
        component server ≡ some c
        → live' c ≡ false
        → ((b : ℕ) → b ≢ c → live' b ≡ live b)
        → component' server ≡ none
        → ((n : ℕ) → n ≢ server → component' n ≡ component n)
        → ((d : ℕ) → owner' d ≡ owner d)
        → Accounts base live' component' owner'
    destroyed-Accounts held gone others blank elsewhere keeps = record {
      owned = λ n d h. elim (ℕ_discrete n server) [
        | yes e ↦ absurd (none_ne_some d (sym blank ∙ subst (λ m. component' m ≡ some d) e h))
        | no ne ↦
            let old = accounts.owned n d (sym (elsewhere n ne) ∙ h) in
            let other : d ≢ c =
              λ e. ne (sym old.1 ∙ ap owner e ∙ (accounts.owned server c held).1) in
            (others d other ∙ old.0, keeps d ∙ old.1, old.2)
      ];
      kept =
          λ b h. others b (differ base b c h (accounts.owned server c held).2) ∙ accounts.kept b h;
      accounted = λ b h.
          let other = differ live' b c h gone in
          elim (accounts.accounted b (sym (others b other) ∙ h)) [
            | inl base ↦ inl base
            | inr (n, e) ↦
                inr
                  (n, elsewhere n (λ s. other (some-injective (sym e ∙ ap component s ∙ held))) ∙ e)
          ];
    }
