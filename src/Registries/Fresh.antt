-- ===== src/Registries/Fresh.antt =====
-- The search for a free id in crates/ha-registries/src: the candidates are different, so it ends.
use mathlib.Core.Path.{subst}
use homeassistant_rs.Base.{
  ℕ, zero, suc, ◌+◌, ◌-◌, ◌*◌, ◌%◌, ◌≤◌, ◌<◌, ◌≡◌, refl, sym, ap, ◌∙◌, true, false, Option, none,
  some, [], ◌∷◌, ◌++◌, list_eq, nat_eq, ◌==◌, ==_iff, arith, length, Bool-cases, inl, inr, ◌⊎◌,
}
use Prim.Native.Nat.{◌/◌}
use homeassistant_rs.Base.Text.{Text, strip_prefix}
use homeassistant_rs.Base.Map
use homeassistant_rs.Base.Map.{Map, lookup-remove}
use homeassistant_rs.Registries.Naming.{
  decimal_within, decimal, candidate, search, free_id, generate_id, Unicode, slugify,
}

-- The number that digits stand for, read after `acc`.
abbrev value : ℕ → Text → ℕ
value acc [] = acc
value acc (c ∷ s) = value (acc * 10 + (c - 48)) s

value-append : (acc c : ℕ) (s : Text) → value acc (s ++ c ∷ []) ≡ value acc s * 10 + (c - 48)
value-append acc c [] = refl
value-append acc c (d ∷ s) = value-append (acc * 10 + (d - 48)) c s

value-decimal_within : (bound n : ℕ) → n ≤ bound → value 0 (decimal_within bound n) ≡ n
unfolding decimal_within
value-decimal_within zero n h = omega arith
value-decimal_within (suc bound) n h = ground (
  arith,
  value-decimal_within bound (n / 10) (omega arith),
  value-append 0 (48 + n % 10) (decimal_within bound (n / 10)),
)

strip_prefix-append : (p s : Text) → strip_prefix p (p ++ s) ≡ some s
unfolding strip_prefix
strip_prefix-append [] s = refl
strip_prefix-append (a ∷ p) s = ground (arith, strip_prefix-append p s)

abbrev tries_of : Option Text → ℕ
tries_of none = 0
tries_of (some []) = 0
tries_of (some (c ∷ s)) = value 0 s

tries_of-candidate : (base : Text) (n : ℕ) → tries_of (strip_prefix base (candidate base n)) ≡ n
unfolding candidate decimal
tries_of-candidate base n =
    ap tries_of (strip_prefix-append base (95 ∷ decimal_within n n))
    ∙ value-decimal_within n n (omega arith)

candidate_injective : (base : Text) (i j : ℕ) → candidate base i ≡ candidate base j → i ≡ j
candidate_injective base i j p =
    sym (tries_of-candidate base i)
    ∙ ap (λ id. tries_of (strip_prefix base id)) p
    ∙ tries_of-candidate base j

candidate_differs : (base : Text) (i j : ℕ) → i < j → (candidate base i == candidate base j) ≡ false
candidate_differs base i j h =
    ground (arith, ==_iff (candidate base i) (candidate base j), candidate_injective base i j)

module _ {Entry : Type 0} where
  length-remove : (id : Text) (m : Map Text Entry) → length (Map.remove id m) ≤ length m
  unfolding Map.remove
  length-remove id [] = omega arith
  length-remove id ((k, e) ∷ m) = ground (arith, length-remove id m)

  remove_shortens :
      (id : Text) (m : Map Text Entry)
      → Map.contains_key id m ≡ true
      → length (Map.remove id m) < length m
  unfolding Map.remove Map.lookup
  remove_shortens id [] h = ground arith
  remove_shortens id ((k, e) ∷ m) h = ground (arith, length-remove id m, remove_shortens id m)

  -- Two maps with the same candidates, from `tries` on, lead to the same candidate.
  search_agrees :
      (a b : Map Text Entry) (base : Text) (rounds tries : ℕ)
      → ((n : ℕ) → tries ≤ n → Map.lookup (candidate base n) a ≡ Map.lookup (candidate base n) b)
      → (search a base rounds tries ≡ search b base rounds tries)
        × (Map.lookup (search a base rounds tries) a ≡ Map.lookup (search a base rounds tries) b)
  unfolding search
  search_agrees a b base zero tries same = (refl, same tries (omega arith))
  search_agrees a b base (suc rounds) tries same =
      let rest = search_agrees a b base rounds (tries + 1) (λ n h. same n (omega arith)) in
      let here = same tries (omega arith) in ground (arith, rest, here)

  search_lem :
      (m : Map Text Entry) (base : Text) (rounds tries : ℕ)
      → length m ≤ rounds
      → Map.lookup (search m base rounds tries) m ≡ none
  unfolding search Map.lookup
  search_lem [] base zero tries h = refl
  search_lem (entry ∷ m) base zero tries h = ground arith
  search_lem m base (suc rounds) tries h =
      elim (Bool-cases (Map.contains_key (candidate base tries) m)) [
        | inl t ↦
            let taken = candidate base tries in
            let others = Map.remove taken m in
            let found =
              search_lem others base rounds (tries + 1)
                (omega (arith, remove_shortens taken m t, h)) in
            let agrees = search_agrees m others base rounds (tries + 1) (λ n later. ground (
              arith,
              lookup-remove taken (candidate base n) m,
              candidate_differs base tries n (omega arith),
            )) in
            ground (arith, found, agrees)
        | inr t ↦ ground arith
      ]

  -- The candidate with this number is `id`, and those before it are taken.
  abbrev IsFirst : Map Text Entry → Text → ℕ → ℕ → Text → Type 0
  IsFirst m base start n id =
      (start ≤ n)
      × (id ≡ candidate base n)
      × ((k : ℕ) → start ≤ k → k < n → Map.contains_key (candidate base k) m ≡ true)

  search-IsFirst :
      (m : Map Text Entry) (base : Text) (rounds tries : ℕ)
      → (n : ℕ) × IsFirst m base tries n (search m base rounds tries)
  unfolding search
  search-IsFirst m base zero tries = (tries, (omega arith, refl, λ k from before. ground arith))
  search-IsFirst m base (suc rounds) tries =
      elim (Bool-cases (Map.contains_key (candidate base tries) m)) [
        | inl t ↦
            let (n, first) = search-IsFirst m base rounds (tries + 1) in
            let reached : search m base (suc rounds) tries ≡ search m base rounds (tries + 1) =
              ground (arith, t) in
            (
              n,
              (
                omega (arith, first.0),
                reached ∙ first.1,
                λ k from before. elim (Bool-cases (tries == k)) [
                  | inl here ↦
                      ap (λ j. Map.contains_key (candidate base j) m)
                        (sym ((==_iff tries k).0 here))
                      ∙ t
                  | inr later ↦ first.2 k (ground (arith, ==_iff tries k, later)) before
                ],
              ),
            )
        | inr t ↦ (tries, (omega arith, ground (arith, t), λ k from before. ground arith))
      ]

  pub generate_id_lem :
      (unicode : Unicode) (name : Text) (by_id : Map Text Entry)
      → Map.lookup (generate_id by_id unicode name) by_id ≡ none
  unfolding generate_id free_id
  generate_id_lem unicode name by_id =
      ground (arith, search_lem by_id (slugify unicode name) (length by_id) 2 (omega arith))

  -- The slug of the name if it is free, and the first free one of its candidates from 2 on otherwise.
  abbrev pub IsFirstFree : Map Text Entry → Text → Text → Type 0
  IsFirstFree m base id =
      (Map.lookup id m ≡ none)
      × ((id ≡ base) ⊎ ((Map.contains_key base m ≡ true) × ((n : ℕ) × IsFirst m base 2 n id)))

  -- The search for an id ends within as many rounds as there are entries: it gives an id that no
  -- entry has, the slug of the name if that is free, and otherwise the first free one of the slug
  -- with "_2", "_3" and so on.
  pub generate_id-IsFirstFree :
      (unicode : Unicode) (name : Text) (by_id : Map Text Entry)
      → IsFirstFree by_id (slugify unicode name) (generate_id by_id unicode name)
  unfolding generate_id free_id
  generate_id-IsFirstFree unicode name by_id =
      let base = slugify unicode name in
      (
        generate_id_lem unicode name by_id,
        elim (Bool-cases (Map.contains_key base by_id)) [
          | inl t ↦
              let searched : search by_id base (length by_id) 2 ≡ free_id by_id base =
                ground (arith, t) in
              inr (
                t,
                subst (λ id. (n : ℕ) × IsFirst by_id base 2 n id) searched
                    (search-IsFirst by_id base (length by_id) 2),
              )
          | inr t ↦ inl (ground (arith, t))
        ],
      )
