-- ===== src/Linux/Packet/Fields.antt =====
-- The two loops that move a field between its string and its bytes, `Get` and `Set` of
-- src/platform/linux/gneiss_internal-packet.adb.
use mathlib.Core.List.{append_assoc}
use ada_interfaces.Base.{
  ℕ, zero, suc, ◌+◌, ◌-◌, ◌≤◌, ◌<◌, ◌≡◌, refl, ap, ◌∙◌, true, false, ◌||◌, List, [], ◌∷◌, ◌++◌,
  length, set, take, ◌==◌, arith, length-take, length-replicate,
}
use ada_interfaces.Linux.Packet.{SessionLabel, blank_label, contents, get, get_loop, set_data}

-- The predicate of `Session_Label`, over 255 characters.
abbrev pub IsLabel : SessionLabel → Type 0
IsLabel l = (l.last ≤ 255) × (length l.value ≡ 255)

pub length-contents : (l : SessionLabel) → IsLabel l → length (contents l) ≡ l.last
length-contents l (fits, room) = omega (arith, length-take l.last l.value)

pub set_data_lem : (xs : List ℕ) → set_data xs (length xs) ≡ xs
unfolding set_data
set_data_lem [] = refl
set_data_lem (x ∷ []) = refl
set_data_lem (x ∷ y ∷ xs) = ap (◌∷◌ x) (set_data_lem (y ∷ xs))

length-set : (xs : List ℕ) (i v : ℕ) → length (set xs i v) ≡ length xs
length-set [] i v = refl
length-set (x ∷ xs) zero v = refl
length-set (x ∷ xs) (suc i) v = ap suc (length-set xs i v)

take-set : (xs : List ℕ) (i v : ℕ) → i < length xs → take (suc i) (set xs i v) ≡ take i xs ++ v ∷ []
take-set [] i v h = absurd (omega arith)
take-set (x ∷ xs) zero v h = refl
take-set (x ∷ xs) (suc i) v h = ap (◌∷◌ x) (take-set xs i v (omega arith))

suc_minus : (i : ℕ) → suc i - 1 ≡ i
suc_minus i = omega arith

get_loop_lem :
    (i : ℕ) (x : ℕ) (xs field : List ℕ)
    → i + length (x ∷ xs) ≤ 255
    → length field ≡ 255
    → let r = get_loop (suc i) (x ∷ xs) field in
      (take r.0 r.1 ≡ take i field ++ x ∷ xs) × (r.0 ≤ 255) × (length r.1 ≡ 255)
unfolding get_loop
get_loop_lem i x [] field fits room =
    let last : ((suc i == 255) || true) ≡ true = ground arith in
    rw (last, suc_minus i)
      (take-set field i x (omega arith), omega arith, length-set field i x ∙ room)
get_loop_lem i x (y ∷ ys) field fits room =
    let more : ((suc i == 255) || false) ≡ false = ground arith in
    let r = get_loop_lem (suc i) y ys (set field i x) (omega arith) (length-set field i x ∙ room) in
    rw (more, suc_minus i)
      (
        r.0
            ∙ ap (λ t. t ++ y ∷ ys) (take-set field i x (omega arith))
            ∙ append_assoc (take i field) (x ∷ []) (y ∷ ys),
        r.1,
        r.2,
      )

-- At most 255 bytes arrive in the string unchanged.
pub contents-get :
    (bytes : List ℕ) (l : SessionLabel)
    → 0 < length bytes
    → length bytes ≤ 255
    → IsLabel l
    → (contents (get bytes l) ≡ bytes) × IsLabel (get bytes l)
unfolding get
contents-get [] l h fits a = absurd (omega arith)
contents-get (x ∷ xs) l h fits a =
    let r = get_loop_lem 0 x xs l.value (omega arith) a.1 in (r.0, (r.1, r.2))

pub blank_label-IsLabel : IsLabel blank_label
blank_label-IsLabel = (omega arith, length-replicate {A = ℕ} 255 0)
