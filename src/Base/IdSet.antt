-- ===== src/Base/IdSet.antt =====
-- `HashSet<T>` as a list without repetition.
use Prim.Native.Nat.{ℕ, ◌+◌}
use homeassistant_rs.Base.Equality.{Eq, ◌==◌, ==_iff, nat_eq}
use homeassistant_rs.Base.Tests.{if◌then◌else◌}
use mathlib.Core.Path.{◌≡◌, refl}
use mathlib.Core.Bool.{Bool, true, false, not, ◌||◌}
use mathlib.Core.List.{List, [], ◌∷◌, ◌++◌}
use native.Mathlib.Omega.{arith}

module _ {A : Type 0} ⦃e : Eq A⦄ where
  unfoldable pub contains : A → List A → Bool
  contains a [] = false
  contains a (x ∷ xs) = x == a || contains a xs

  unfoldable pub insert : A → List A → List A
  unfolding contains
  insert a xs = if contains a xs then xs else xs ++ a ∷ []

  unfoldable pub remove : A → List A → List A
  remove a [] = []
  remove a (x ∷ xs) = let rest = remove a xs in if x == a then rest else x ∷ rest

  pub contains-append :
      (a : A) (xs ys : List A) → contains a (xs ++ ys) ≡ (contains a xs || contains a ys)
  unfolding contains
  contains-append a [] ys = refl
  contains-append a (x ∷ xs) ys = ground (arith, contains-append a xs ys)

  pub contains-insert :
      (a b : A) (xs : List A) → contains b (insert a xs) ≡ (if a == b then true else contains b xs)
  unfolding insert
  contains-insert a b xs = ground (arith, ==_iff a b, contains-append b xs (a ∷ []))

  pub contains-remove :
      (a b : A) (xs : List A) → contains b (remove a xs) ≡ (if a == b then false else contains b xs)
  unfolding contains remove
  contains-remove a b [] = ground arith
  contains-remove a b (x ∷ xs) =
      ground (arith, ==_iff a b, ==_iff x a, ==_iff x b, contains-remove a b xs)

-- How often a value stands in a list.
module _ {A : Type 0} ⦃e : Eq A⦄ where
  unfoldable pub count : A → List A → ℕ
  count a [] = 0
  count a (x ∷ xs) = let rest = count a xs in if x == a then rest + 1 else rest

  pub count-append : (a : A) (xs ys : List A) → count a (xs ++ ys) ≡ count a xs + count a ys
  unfolding count
  count-append a [] ys = omega arith
  count-append a (x ∷ xs) ys = ground (arith, count-append a xs ys)

  pub count-remove :
      (a b : A) (xs : List A) → count b (remove a xs) ≡ (if a == b then 0 else count b xs)
  unfolding count remove
  count-remove a b [] = ground arith
  count-remove a b (x ∷ xs) =
      ground (arith, ==_iff a b, ==_iff x a, ==_iff x b, count-remove a b xs)

  pub contains-count : (a : A) (xs : List A) → contains a xs ≡ not (count a xs == 0)
  unfolding contains count
  contains-count a [] = refl
  contains-count a (x ∷ xs) = ground (arith, contains-count a xs)

  pub count-insert :
      (a b : A) (xs : List A)
      → count b (insert a xs)
        ≡ (if a == b then (if count a xs == 0 then 1 else count a xs) else count b xs)
  unfolding count insert
  count-insert a b xs =
      ground (arith, ==_iff a b, contains-count a xs, count-append b xs (a ∷ []), ==_iff a a)

pub ruleset set_laws = (contains-insert, contains-remove)
