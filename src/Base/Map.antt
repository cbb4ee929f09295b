-- ===== src/Base/Map.antt =====
-- `HashMap`, `DashMap` and `IndexMap` as association lists. A write to a key that is there keeps
-- its place, a new key goes last, and a removal keeps the order: `IndexMap` with `shift_remove`.
use homeassistant_rs.Base.Equality.{Eq, ◌==◌, ==_iff, nat_eq, option_eq}
use homeassistant_rs.Base.Lists.{length, all}
use homeassistant_rs.Base.Tests.{if◌then◌else◌, is_some}
use mathlib.Core.Path.{◌≡◌, refl}
use mathlib.Core.Bool.{Bool, ◌&&◌}
use mathlib.Core.Option.{Option, none, some}
use mathlib.Core.List.{List, [], ◌∷◌}
use native.Mathlib.Omega.{arith}

abbrev pub Map : Type 0 → Type 0 → Type 0
Map K V = List (K × V)

abbrev pub empty : {K V : Type 0} → Map K V
empty = []

abbrev pub map_option : {V : Type 0} → (V → V) → Option V → Option V
map_option f none = none
map_option f (some v) = some (f v)

module _ {K V : Type 0} where
  unfoldable pub keys : Map K V → List K
  keys [] = []
  keys ((k, v) ∷ m) = k ∷ keys m

  unfoldable pub values : Map K V → List V
  values [] = []
  values ((k, v) ∷ m) = v ∷ values m

module _ {K V : Type 0} ⦃e : Eq K⦄ where
  unfoldable pub lookup : K → Map K V → Option V
  lookup k [] = none
  lookup k ((j, v) ∷ m) = if j == k then some v else lookup k m

  unfoldable pub insert : K → V → Map K V → Map K V
  insert k v [] = (k, v) ∷ []
  insert k v ((key, old) ∷ rest) =
      if key == k then (key, v) ∷ rest else (key, old) ∷ insert k v rest

  unfoldable pub remove : K → Map K V → Map K V
  remove k [] = []
  remove k ((j, w) ∷ m) = let rest = remove k m in if j == k then rest else (j, w) ∷ rest

  -- `get_mut` followed by a write through the reference; nothing when the key is not there.
  unfoldable pub modify : K → (V → V) → Map K V → Map K V
  modify k f [] = []
  modify k f ((j, w) ∷ m) = (j, if j == k then f w else w) ∷ modify k f m

  -- The writes of all entries of another map, one after the other.
  unfoldable pub extend : Map K V → Map K V → Map K V
  unfolding insert
  extend m [] = m
  extend m ((k, v) ∷ rest) = extend (insert k v m) rest

  abbrev pub contains_key : K → Map K V → Bool
  contains_key k m = is_some (lookup k m)

  pub lookup-empty : (k : K) → lookup k (empty {V = V}) ≡ none
  unfolding lookup
  lookup-empty k = refl

  pub lookup-insert :
      (k j : K) (v : V) (m : Map K V)
      → lookup j (insert k v m) ≡ (if k == j then some v else lookup j m)
  unfolding lookup insert
  lookup-insert k j v [] = refl
  lookup-insert k j v ((key, old) ∷ rest) =
      ground (arith, lookup-insert k j v rest, ==_iff k j, ==_iff key k, ==_iff key j)

  pub lookup-remove :
      (k j : K) (m : Map K V) → lookup j (remove k m) ≡ (if k == j then none else lookup j m)
  unfolding lookup remove
  lookup-remove k j [] = ground arith
  lookup-remove k j ((i, w) ∷ m) =
      ground (arith, ==_iff k j, ==_iff i k, ==_iff i j, lookup-remove k j m)

  pub lookup-modify :
      (k j : K) (f : V → V) (m : Map K V)
      → lookup j (modify k f m) ≡ (if k == j then map_option f (lookup j m) else lookup j m)
  unfolding lookup modify
  lookup-modify k j f [] = ground arith
  lookup-modify k j f ((i, w) ∷ m) =
      ground (arith, ==_iff k j, ==_iff i k, ==_iff i j, lookup-modify k j f m)

module _ {K V : Type 0} ⦃e : Eq K⦄ where
  pub remove-remove : (k : K) (m : Map K V) → remove k (remove k m) ≡ remove k m
  unfolding remove
  remove-remove k [] = refl
  remove-remove k ((j, w) ∷ m) = ground (arith, remove-remove k m)

-- `==` of two hash maps: as many entries, and each entry of the one is in the other.
module _ {K V : Type 0} ⦃e : Eq K⦄ ⦃f : Eq V⦄ where
  unfoldable pub map_beq : Map K V → Map K V → Bool
  unfolding lookup
  map_beq a b = length a == length b && all (λ entry. lookup entry.0 b == some entry.1) a

pub ruleset map_laws = (lookup-empty, lookup-insert, lookup-remove, lookup-modify)
