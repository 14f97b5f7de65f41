-- ===== src/Linux/Socket/Rights.antt =====
-- The descriptor array of read_message: how it is reset and what is copied over it.
use native.Mathlib.Decide.{dec_lt}
use mathlib.Core.List.{append-nil}
use ada_interfaces.Base.{
  ℕ, zero, suc, ◌+◌, ◌*◌, ◌≤◌, ◌<◌, ◌≡◌, refl, ap, ◌∙◌, some, List, [], ◌∷◌, ◌++◌, length, set,
  drop, get_elem?, arith, take_left, drop_all, length-append, length-drop,
}
use ada_interfaces.Linux.Socket.{no_fd, invalidate, copy}
use ada_interfaces.Linux.Socket.Words.{
  bytes, words, AreWords, length-bytes, words-bytes, get_elem?-words-take, get_elem?-words-drop,
  get_elem?-words_behind,
}

length-set : (xs : List ℕ) (i v : ℕ) → length (set xs i v) ≡ length xs
length-set [] i v = refl
length-set (x ∷ xs) zero v = refl
length-set (x ∷ xs) (suc i) v = ap suc (length-set xs i v)

get_elem?-set_self : (xs : List ℕ) (i v : ℕ) → i < length xs → get_elem? (set xs i v) i ≡ some v
get_elem?-set_self [] i v h = elim h [ ]
get_elem?-set_self (x ∷ xs) zero v h = refl
get_elem?-set_self (x ∷ xs) (suc i) v h = get_elem?-set_self xs i v (omega arith)

get_elem?-set_after : (xs : List ℕ) (i j v : ℕ) → i < j → get_elem? (set xs j v) i ≡ get_elem? xs i
get_elem?-set_after [] i j v h = refl
get_elem?-set_after (x ∷ xs) i zero v h = absurd (omega arith)
get_elem?-set_after (x ∷ xs) zero (suc j) v h = refl
get_elem?-set_after (x ∷ xs) (suc i) (suc j) v h = get_elem?-set_after xs i j v (omega arith)

pub length-invalidate : (n : ℕ) (fds : List ℕ) → length (invalidate n fds) ≡ length fds
unfolding invalidate
length-invalidate zero fds = refl
length-invalidate (suc n) fds = length-set (invalidate n fds) n no_fd ∙ length-invalidate n fds

-- The loop leaves -1 in each of the first `n` places.
pub get_elem?-invalidate :
    (n i : ℕ) (fds : List ℕ) → i < n → n ≤ length fds → get_elem? (invalidate n fds) i ≡ some no_fd
unfolding invalidate
get_elem?-invalidate zero i fds h l = elim h [ ]
get_elem?-invalidate (suc n) i fds h l = elim (dec_lt i n) [
  | yes p ↦
      get_elem?-set_after (invalidate n fds) i n no_fd p
      ∙ get_elem?-invalidate n i fds p (omega arith)
  | no p ↦
      let e : i ≡ n = omega arith in
      rw e (get_elem?-set_self (invalidate n fds) n no_fd (omega (arith, length-invalidate n fds)))
]

-- Where as many descriptors arrive as there is room for, they fill the array.
pub copy-exact :
    (m : ℕ) (ins rest blank : List ℕ)
    → AreWords ins
    → length blank ≡ length ins
    → m ≡ 4 * length ins
    → copy m (bytes ins ++ rest) blank ≡ ins
unfolding copy
copy-exact m ins rest blank h l e =
    let t : m ≡ length (bytes ins) = omega (arith, length-bytes ins) in
    let d : length (bytes blank) ≤ m = omega (arith, length-bytes blank) in
    rw (drop_all m (bytes blank) d, append-nil, t, take_left (bytes ins) rest) (words-bytes ins h)

-- Where fewer arrive and the copy goes on behind them, the next place holds the word that the
-- control buffer held there before.
pub copy-stale :
    (m : ℕ) (ins stack blank : List ℕ)
    → 4 * length ins + 4 ≤ m
    → m ≤ length stack
    → get_elem? (copy m (bytes ins ++ drop (4 * length ins) stack) blank) (length ins)
      ≡ get_elem? (words stack) (length ins)
unfolding copy
copy-stale m ins stack blank h l =
    get_elem?-words-take (length ins) m (bytes ins ++ drop (4 * length ins) stack) _ h (
      omega (
        arith,
        length-append (bytes ins) (drop (4 * length ins) stack),
        length-bytes ins,
        length-drop (4 * length ins) stack,
      ))
    ∙ get_elem?-words_behind ins (drop (4 * length ins) stack)
    ∙ get_elem?-words-drop (length ins) (4 * length ins) stack refl
