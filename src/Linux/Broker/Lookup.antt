-- ===== src/Linux/Broker/Lookup.antt =====
-- The broker's questions to its configuration: src/core/linux/gneiss-broker-lookup.adb. SXML, which
-- reads the configuration, is a parameter.
pub mod Match
use mathlib.Core.Option as Opt
use ada_interfaces.Base.{
  ℕ, zero, suc, ◌+◌, Bool, true, false, not, ◌&&◌, ◌||◌, Option, none, some, List, [], ◌∷◌, ◌==◌,
  if◌then◌else◌, ℤ, is_neg,
}
use ada_interfaces.Linux.Packet.Format.{Kind}
use ada_interfaces.Linux.Broker.State.{Component, Resource, State}

-- The attributes that the broker asks for.
pub data Attribute : Type 0 where
  attr_name attr_label attr_server attr_resource attr_type attr_location : Attribute

-- The result of a query for an attribute; `failed` is every result but OK and Not_Found.
pub data Answer : Type 0 where
  found : List ℕ → Answer
  not_found failed : Answer

-- SXML.Query on one document; a node is a state of a query.
pub record Xml (N : Type 0) : Type 0 where
  pub invalid_state : N
  pub is_invalid : N → Bool
  pub is_initial : N → Bool
  pub is_open : N → Bool
  -- State_Result = Result_OK
  pub is_ok : N → Bool
  pub child : N → N
  pub sibling : N → N
  -- Find_Sibling for the element "service" whose attribute "name" is the image of the kind
  pub find_service : N → Kind → N
  pub attribute : N → Attribute → Answer

abbrev same_text : List ℕ → List ℕ → Bool
same_text [] [] = true
same_text [] (c ∷ cs) = false
same_text (u ∷ us) [] = false
same_text (u ∷ us) (c ∷ cs) = u == c && same_text us cs

-- The content of a buffer and a string; an empty string is never equal.
unfoldable pub compare : List ℕ → List ℕ → Bool
compare u [] = false
compare u (c ∷ cs) = same_text u (c ∷ cs)

-- `Result = Result_OK and then Compare (...)`
unfoldable pub matches : Answer → List ℕ → Bool
unfolding compare
matches (found v) text = compare v text
matches _ text = false

-- A service without a label becomes the default.
abbrev pub default_after : {N : Type 0} → Answer → N → N → N
default_after not_found service default = service
default_after _ service default = default

module _ {N : Type 0} (x : Xml N) where
  -- The loop over the services of a component; the fuel counts its rounds.
  unfoldable pub match_loop : ℕ → N → Kind → List ℕ → N → Option N
  unfolding matches
  match_loop zero query kind label default = none
  match_loop (suc fuel) query kind label default =
      let service = x.find_service query kind in
      let answer = x.attribute service attr_label in
      let rest =
        match_loop fuel (x.sibling service) kind label (default_after answer service default) in
      if not (x.is_ok query && x.is_ok service)
      then some default
      else if matches answer label
      then some service
      else rest

  unfoldable pub match_service : ℕ → N → Kind → List ℕ → Option N
  unfolding match_loop
  match_service fuel comp kind label = match_loop fuel (x.child comp) kind label x.invalid_state

  -- The index of the first component in use that has the name.
  unfoldable pub find_name : List (Component N) → List ℕ → Option ℕ
  unfolding matches
  find_name [] name = none
  find_name (c ∷ cs) name =
      let rest = Opt.map suc (find_name cs name) in
      if not (is_neg c.fd) && matches (x.attribute c.node attr_name) name then some 0 else rest

  abbrev pub find_component_by_name : State N → List ℕ → Option ℕ
  find_component_by_name s [] = none
  find_component_by_name s (c ∷ name) = find_name s.components (c ∷ name)

  -- The first resource in use that has the name.
  unfoldable pub find_resource : List (Resource N) → List ℕ → Option N
  unfolding matches
  find_resource [] name = none
  find_resource (r ∷ rs) name =
      let rest = find_resource rs name in
      if not (x.is_invalid r.node || x.is_initial r.node)
        && matches (x.attribute r.node attr_name) name
      then some r.node
      else rest
