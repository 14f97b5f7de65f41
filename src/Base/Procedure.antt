-- ===== src/Base/Procedure.antt =====
-- A C procedure as a state-passing function over the world that it runs in.
use mathlib.Core.Bool.{Bool, true, false}

abbrev pub Proc : Type 0 → Type 0 → Type 0
Proc W A = W → A × W

module _ {W : Type 0} where
  abbrev pub pure : {A : Type 0} → A → Proc W A
  pure a w = (a, w)

  infixl 5 ◌>>=◌ ◌>>◌
  abbrev pub ◌>>=◌ : {A B : Type 0} → Proc W A → (A → Proc W B) → Proc W B
  ◌>>=◌ m f w = f (m w).0 (m w).1

  abbrev pub ◌>>◌ : {B : Type 0} → Proc W (Unit {0}) → Proc W B → Proc W B
  ◌>>◌ m n w = n (m w).1

  -- `if(b){ m; }`
  abbrev pub when : Bool → Proc W (Unit {0}) → Proc W (Unit {0})
  when true m w = m w
  when false m w = (tt, w)
