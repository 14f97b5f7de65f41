-- ===== src/Linux/Packet/Format.antt =====
-- The packets between a component and its broker: src/platform/linux/session.rflx, from which
-- RecordFlux generates the code that reads and writes them.
use mathlib.Core.List.{append_assoc}
use ada_interfaces.Base.{
  ℕ, ◌+◌, ◌≡◌, refl, true, Option, none, some, List, [], ◌∷◌, ◌++◌, length, take, drop, leb, ◌==◌,
  if◌then◌else◌, take_left, drop_left, length-append, arith,
}

pub data Action : Type 0 where
  request confirm reject register : Action

pub data Kind : Type 0 where
  message log memory rom timer : Kind

-- `Name_Length` and `Label_Length` are the lengths of the two lists.
pub record Packet : Type 0 where
  pub action : Action
  pub kind : Kind
  pub name : List ℕ
  pub label : List ℕ

unfoldable pub action_code : Action → ℕ
action_code request = 0
action_code confirm = 1
action_code reject = 2
action_code register = 3

unfoldable pub kind_code : Kind → ℕ
kind_code message = 0
kind_code log = 1
kind_code memory = 2
kind_code rom = 3
kind_code timer = 4

unfoldable pub action_of : ℕ → Option Action
action_of a =
    if a == 0
    then some request
    else if a == 1
    then some confirm
    else if a == 2
    then some reject
    else if a == 3
    then some register
    else none

unfoldable pub kind_of : ℕ → Option Kind
kind_of a =
    if a == 0
    then some message
    else if a == 1
    then some log
    else if a == 2
    then some memory
    else if a == 3
    then some rom
    else if a == 4
    then some timer
    else none

infixl 5 ◌>>=◌
abbrev ◌>>=◌ : {A B : Type 0} → Option A → (A → Option B) → Option B
none >>= f = none
some a >>= f = f a

abbrev byte : List ℕ → Option (ℕ × List ℕ)
byte [] = none
byte (x ∷ xs) = some (x, xs)

-- A length, and as many bytes.
abbrev sized : List ℕ → Option (List ℕ × List ℕ)
sized [] = none
sized (n ∷ xs) = if leb n (length xs) then some (take n xs, drop n xs) else none

unfoldable pub encode : Packet → List ℕ
encode p =
    action_code p.action ∷ kind_code p.kind ∷ length p.name ∷ (p.name ++ (length p.label ∷ p.label))

-- Bytes behind the packet are not looked at.
unfoldable pub decode : List ℕ → Option Packet
decode bytes = do
  (a, rest) ← byte bytes
  action ← action_of a
  (c, rest) ← byte rest
  kind ← kind_of c
  (name, rest) ← sized rest
  (label, rest) ← sized rest
  some (record { action = action; kind = kind; name = name; label = label })

action_of-action_code : (a : Action) → action_of (action_code a) ≡ some a
unfolding action_of action_code
action_of-action_code request = refl
action_of-action_code confirm = refl
action_of-action_code reject = refl
action_of-action_code register = refl

kind_of-kind_code : (c : Kind) → kind_of (kind_code c) ≡ some c
unfolding kind_of kind_code
kind_of-kind_code message = refl
kind_of-kind_code log = refl
kind_of-kind_code memory = refl
kind_of-kind_code rom = refl
kind_of-kind_code timer = refl

sized_lem : (xs ys : List ℕ) → sized (length xs ∷ (xs ++ ys)) ≡ some (xs, ys)
sized_lem xs ys =
    let fits : leb (length xs) (length (xs ++ ys)) ≡ true = rw length-append (ground arith) in
    rw (fits, take_left, drop_left) refl

-- What is written is read again, whatever stands behind it.
pub decode-encode : (p : Packet) (rest : List ℕ) → decode (encode p ++ rest) ≡ some p
unfolding decode encode
decode-encode p rest =
    rw
      (
        action_of-action_code,
        kind_of-kind_code,
        append_assoc p.name (length p.label ∷ p.label) rest,
        sized_lem p.name (length p.label ∷ (p.label ++ rest)),
        sized_lem p.label rest,
      )
      refl

pub length-encode : (p : Packet) → length (encode p) ≡ 4 + length p.name + length p.label
unfolding encode
length-encode p = rw length-append (omega arith)
