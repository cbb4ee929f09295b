-- ===== src/EventBus/Totals.antt =====
-- How often a listener's id stands among the callbacks of crates/ha-event-bus/src/lib.rs, under all
-- event types together, and what a registration and a removal do to that number.
use homeassistant_rs.Base.{
  ℕ, zero, suc, ◌+◌, ◌≡◌, refl, true, ◌&&◌, none, some, List, [], ◌∷◌, ◌++◌, arith, ◌==◌, ltb,
  list_eq, nat_eq, if◌then◌else◌, unwrap_or, Option-cases, inl, inr,
}
use homeassistant_rs.Base.Map
use homeassistant_rs.Base.Map.{Map}
use homeassistant_rs.Core.Event.{EventType}
use homeassistant_rs.EventBus.{
  Listener, ListenerId, insert_second, rotate, last_first, swap_remove, position, remove_first,
}

module _ {Json World : Type 0} where
  -- The listeners of a list with that id.
  abbrev pub count_id : ListenerId → List (Listener Json World) → ℕ
  count_id id [] = 0
  count_id id ((j, callback) ∷ listeners) =
      let rest = count_id id listeners in if j == id then suc rest else rest

  -- The listeners with that id under all event types.
  abbrev pub total : ListenerId → Map EventType (List (Listener Json World)) → ℕ
  total id [] = 0
  total id ((event_type, listeners) ∷ m) = count_id id listeners + total id m

  count_id-append :
      (id : ListenerId) (xs ys : List (Listener Json World))
      → count_id id (xs ++ ys) ≡ count_id id xs + count_id id ys
  count_id-append id [] ys = omega arith
  count_id-append id ((j, callback) ∷ xs) ys = ground (arith, count_id-append id xs ys)

  total-insert :
      (id : ListenerId) (t : EventType) (xs : List (Listener Json World))
      (m : Map EventType (List (Listener Json World)))
      → total id (Map.insert t xs m) + count_id id (unwrap_or (Map.lookup t m) [])
        ≡ total id m + count_id id xs
  unfolding Map.insert Map.lookup
  total-insert id t xs [] = omega arith
  total-insert id t xs ((u, ys) ∷ m) = ground (arith, total-insert id t xs m)

  -- A registration adds its listener.
  pub total-push :
      (id : ListenerId) (t : EventType) (x : Listener Json World)
      (m : Map EventType (List (Listener Json World)))
      → total id (Map.insert t (unwrap_or (Map.lookup t m) [] ++ x ∷ []) m)
        ≡ total id m + count_id id (x ∷ [])
  total-push id t x m =
      let old = unwrap_or (Map.lookup t m) [] in
      omega (arith, total-insert id t (old ++ x ∷ []) m, count_id-append id old (x ∷ []))

  count_id-insert_second :
      (id : ListenerId) (x : Listener Json World) (xs : List (Listener Json World))
      → count_id id (insert_second x xs) ≡ count_id id (x ∷ xs)
  count_id-insert_second id x [] = refl
  count_id-insert_second id x (y ∷ ys) = ground arith

  count_id-rotate :
      (id : ListenerId) (x : Listener Json World) (xs : List (Listener Json World))
      → count_id id (rotate x xs) ≡ count_id id (x ∷ xs)
  count_id-rotate id x [] = refl
  count_id-rotate id x (y ∷ ys) =
      ground (arith, count_id-insert_second id x (rotate y ys), count_id-rotate id y ys)

  count_id-last_first :
      (id : ListenerId) (xs : List (Listener Json World))
      → count_id id (last_first xs) ≡ count_id id xs
  count_id-last_first id [] = refl
  count_id-last_first id (x ∷ xs) = count_id-rotate id x xs

  count_id-swap_remove :
      (id a : ListenerId) (i : ℕ) (xs : List (Listener Json World))
      → position a xs ≡ some i
      → count_id id (swap_remove i xs) + (if a == id then 1 else 0) ≡ count_id id xs
  unfolding position swap_remove
  count_id-swap_remove id a i [] h = absurd (ground arith)
  count_id-swap_remove id a zero ((j, callback) ∷ xs) h = elim (Option-cases (position a xs)) [
    | inl n ↦ ground (arith, count_id-last_first id xs, n)
    | inr (k, n) ↦ ground (arith, count_id-last_first id xs, n)
  ]
  count_id-swap_remove id a (suc i) ((j, callback) ∷ xs) h = elim (Option-cases (position a xs)) [
    | inl n ↦ absurd (ground (arith, n))
    | inr (k, n) ↦ ground (arith, n, count_id-swap_remove id a i xs)
  ]

  position-none :
      (a : ListenerId) (xs : List (Listener Json World)) → position a xs ≡ none → count_id a xs ≡ 0
  unfolding position
  position-none a [] h = refl
  position-none a ((j, callback) ∷ xs) h = elim (Option-cases (position a xs)) [
    | inl n ↦ ground (arith, n, position-none a xs)
    | inr (k, n) ↦ absurd (ground (arith, n))
  ]

  position-some :
      (a : ListenerId) (i : ℕ) (xs : List (Listener Json World))
      → position a xs ≡ some i
      → ltb 0 (count_id a xs) ≡ true
  position-some a i xs h = ground (arith, count_id-swap_remove a a i xs h)

  -- A removal takes away one listener with the id, if there is one, and no other.
  pub total-remove_first :
      (id a : ListenerId) (m : Map EventType (List (Listener Json World)))
      → total id (remove_first a m) + (if a == id && ltb 0 (total id m) then 1 else 0) ≡ total id m
  unfolding remove_first
  total-remove_first id a [] = ground arith
  total-remove_first id a ((t, xs) ∷ m) = elim (Option-cases (position a xs)) [
    | inl n ↦ ground (arith, n, position-none a xs n, total-remove_first id a m)
    | inr (k, n) ↦ ground (arith, n, position-some a k xs n, count_id-swap_remove id a k xs n)
  ]
