-- ===== src/Base/Stores.antt =====
-- A store of objects as a function from addresses.
use Prim.Native.Nat.{ℕ}
use mathlib.Core.Path.{◌≡◌}
use mathlib.Core.Logic.{◌≢◌}
use native.Mathlib.Omega.{arith}
use ada_interfaces.Base.Tests.{◌==◌, if◌then◌else◌}

abbrev pub put_at : {A : Type 0} → (ℕ → A) → ℕ → A → ℕ → A
put_at f p v a = if a == p then v else f a

pub put_at-same : {A : Type 0} (f : ℕ → A) (p : ℕ) (v : A) → put_at f p v p ≡ v
put_at-same f p v = ground arith

pub put_at-other : {A : Type 0} (f : ℕ → A) (p : ℕ) (v : A) (a : ℕ) → a ≢ p → put_at f p v a ≡ f a
put_at-other f p v a h = ground arith
