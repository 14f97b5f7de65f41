-- ===== src/Base/Cint.antt =====
-- A C `int` (also `ssize_t`, `long long`) as an integer over the native numbers, with the tests
-- that the sources make on results; `negsuc n` is -(n + 1).
use Prim.Native.Nat.{ℕ, zero, suc, ◌+◌, ◌-◌, ◌%◌, ◌^◌}
use ada_interfaces.Base.Tests.{◌==◌, ==_iff}
use native.Mathlib.Decide.{ℕ_discrete}
use mathlib.Core.Path.{◌≡◌, refl, ap}
use mathlib.Core.Logic.{◌≢◌, ◌⊎◌, inl, inr}
use mathlib.Core.Bool.{Bool, true, false}
use mathlib.Core.Option.{Option, none, some}

pub data ℤ : Type 0 where
  pos : ℕ → ℤ
  negsuc : ℕ → ℤ

abbrev pub minus_one : ℤ
minus_one = negsuc 0

-- `x < 0`
abbrev pub is_neg : ℤ → Bool
is_neg (pos n) = false
is_neg (negsuc n) = true

-- The C condition `if(x)`.
abbrev pub is_nonzero : ℤ → Bool
is_nonzero (pos zero) = false
is_nonzero (pos (suc n)) = true
is_nonzero (negsuc n) = true

-- A Boolean result of C, 1 or 0.
abbrev pub of_bool : Bool → ℤ
of_bool true = pos 1
of_bool false = pos 0

pub ℤ-cases : (z : ℤ) → ((n : ℕ) × (z ≡ pos n)) ⊎ ((n : ℕ) × (z ≡ negsuc n))
ℤ-cases (pos n) = inl (n, refl)
ℤ-cases (negsuc n) = inr (n, refl)

pub pos-injective : {a b : ℕ} → pos a ≡ pos b → a ≡ b
pos-injective e = cc

unfoldable pub ℤ-discrete : Discrete ℤ
ℤ-discrete = hlevel ℕ_discrete

-- The conversion of a signed value to `size_t`.
unfoldable pub to_size : ℤ → ℕ
to_size (pos n) = n
to_size (negsuc n) = 2 ^ 64 - 1 - n

-- `x == y`
abbrev pub int_eq : ℤ → ℤ → Bool
int_eq (pos a) (pos b) = a == b
int_eq (negsuc a) (negsuc b) = a == b
int_eq (pos a) (negsuc b) = false
int_eq (negsuc a) (pos b) = false

pub int_eq_sound : (x y : ℤ) → int_eq x y ≡ true → x ≡ y
int_eq_sound (pos a) (pos b) h = ap pos ((==_iff a b).0 h)
int_eq_sound (negsuc a) (negsuc b) h = ap negsuc ((==_iff a b).0 h)
int_eq_sound (pos a) (negsuc b) h = cc
int_eq_sound (negsuc a) (pos b) h = cc

pub int_eq_refl : (x : ℤ) → int_eq x x ≡ true
int_eq_refl (pos a) = (==_iff a a).1 refl
int_eq_refl (negsuc a) = (==_iff a a).1 refl

pub int_eq-false : (x y : ℤ) → int_eq x y ≡ false → x ≢ y
int_eq-false x y h e = cc (int_eq_refl x, ap (int_eq x) e)

-- A 32-bit store at a 64-bit field, on a little-endian machine.
unfoldable pub store32 : ℕ → Option ℕ → ℕ
store32 old none = old
store32 old (some v) = old - old % 2 ^ 32 + v % 2 ^ 32
