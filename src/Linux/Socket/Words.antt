-- ===== src/Linux/Socket/Words.antt =====
-- 32-bit words as four bytes each, the lowest first, and the words of a copied array.
use ada_interfaces.Base.{
  ap₂, ℕ, zero, suc, ◌+◌, ◌*◌, ◌/◌, ◌%◌, ◌^◌, ◌≤◌, ◌<◌, ◌≡◌, refl, List, [], ◌∷◌, ◌++◌, length,
  take, drop, get_elem?, arith,
}

unfoldable pub bytes : List ℕ → List ℕ
bytes [] = []
bytes (w ∷ ws) =
    w % 256 ∷ ((w / 256) % 256) ∷ ((w / 65536) % 256) ∷ ((w / 16777216) % 256) ∷ bytes ws

unfoldable pub words : List ℕ → List ℕ
words (a ∷ b ∷ c ∷ d ∷ r) = (a + 256 * b + 65536 * c + 16777216 * d) ∷ words r
words _ = []

abbrev pub AreWords : List ℕ → Type 0
AreWords [] = Unit {0}
AreWords (w ∷ ws) = (w < 2 ^ 32) × AreWords ws

pub length-bytes : (ws : List ℕ) → length (bytes ws) ≡ 4 * length ws
unfolding bytes
length-bytes [] = refl
length-bytes (w ∷ ws) = omega (arith, length-bytes ws)

pub words-bytes_append :
    (ws rest : List ℕ) → AreWords ws → words (bytes ws ++ rest) ≡ ws ++ words rest
unfolding words bytes
words-bytes_append [] rest h = refl
words-bytes_append (w ∷ ws) rest h = ap₂ ◌∷◌ (omega arith) (words-bytes_append ws rest h.1)

pub words-bytes : (ws : List ℕ) → AreWords ws → words (bytes ws) ≡ ws
unfolding words bytes
words-bytes [] h = refl
words-bytes (w ∷ ws) h = ap₂ ◌∷◌ (omega arith) (words-bytes ws h.1)

-- A word is made of its own four bytes only.
pub get_elem?-words-take :
    (i m : ℕ) (xs ys : List ℕ)
    → 4 * i + 4 ≤ m
    → m ≤ length xs
    → get_elem? (words (take m xs ++ ys)) i ≡ get_elem? (words xs) i
unfolding words
get_elem?-words-take zero (suc (suc (suc (suc m)))) (a ∷ b ∷ c ∷ d ∷ xs) ys h l = refl
get_elem?-words-take (suc i) (suc (suc (suc (suc m)))) (a ∷ b ∷ c ∷ d ∷ xs) ys h l =
    get_elem?-words-take i m xs ys (omega arith) (omega arith)
get_elem?-words-take i m xs ys h l = absurd (omega arith)

pub get_elem?-words-drop :
    (n m : ℕ) (xs : List ℕ) → m ≡ 4 * n → get_elem? (words (drop m xs)) 0 ≡ get_elem? (words xs) n
unfolding words
get_elem?-words-drop zero m xs e = rw e refl
get_elem?-words-drop (suc n) (suc (suc (suc (suc m)))) [] e = refl
get_elem?-words-drop (suc n) (suc (suc (suc (suc m)))) (a ∷ []) e = refl
get_elem?-words-drop (suc n) (suc (suc (suc (suc m)))) (a ∷ b ∷ []) e = refl
get_elem?-words-drop (suc n) (suc (suc (suc (suc m)))) (a ∷ b ∷ c ∷ []) e = refl
get_elem?-words-drop (suc n) (suc (suc (suc (suc m)))) (a ∷ b ∷ c ∷ d ∷ xs) e =
    get_elem?-words-drop n m xs (omega arith)
get_elem?-words-drop (suc n) m xs e = absurd (omega arith)

-- The first word behind a prefix of whole words.
pub get_elem?-words_behind :
    (ws rest : List ℕ) → get_elem? (words (bytes ws ++ rest)) (length ws) ≡ get_elem? (words rest) 0
unfolding words bytes
get_elem?-words_behind [] rest = refl
get_elem?-words_behind (w ∷ ws) rest = get_elem?-words_behind ws rest
