-- ===== src/ServiceRegistry/Domains.antt =====
-- `unregister_domain` of crates/ha-service-registry/src/lib.rs removes the services of the domain and
-- no other.
use homeassistant_rs.Base.{
  ◌≡◌, refl, sym, ap, ◌∙◌, Bool, false, not, Option, none, some, List, [], ◌∷◌, arith, ==_iff, ◌==◌,
  list_eq, nat_eq, if◌then◌else◌, Bool-cases, inl, inr, filter, length, ◌+◌,
}
use homeassistant_rs.Base.Text.{Text}
use homeassistant_rs.Base.Map
use homeassistant_rs.Base.Map.{Map, lookup-remove}
use homeassistant_rs.Base.IdSet
use homeassistant_rs.ServiceRegistry.{
  ServiceDescription, RegisteredService, ServiceRegistry, key, get_service, domain_services,
  remove_all, keys_to_remove, unregister_domain, service_count, description_of, descriptions,
}
use homeassistant_rs.ServiceRegistry.Keys.{key_of, AreKeyed, IsKeyed}

module _ {Json World : Type 0} where
  abbrev in_domain : Text → Text × RegisteredService Json World → Bool
  in_domain domain entry = entry.1.description.domain == domain

  -- The services of the other domains.
  abbrev others :
      Text → Map Text (RegisteredService Json World) → Map Text (RegisteredService Json World)
  others domain m = filter (λ entry. not (in_domain domain entry)) m

  remove-absent :
      (k : Text) (m : Map Text (RegisteredService Json World))
      → Map.lookup k m ≡ none
      → Map.remove k m ≡ m
  unfolding Map.lookup Map.remove
  remove-absent k [] h = refl
  remove-absent k ((j, x) ∷ m) h = ground (arith, remove-absent k m)

  remove_all-cons :
      (ks : List Text) (k : Text) (x : RegisteredService Json World)
      (m : Map Text (RegisteredService Json World))
      → IdSet.contains k ks ≡ false
      → remove_all ks ((k, x) ∷ m) ≡ (k, x) ∷ remove_all ks m
  unfolding remove_all IdSet.contains Map.remove
  remove_all-cons [] k x m h = refl
  remove_all-cons (j ∷ ks) k x m h = elim (Bool-cases (k == j)) [
    | inl t ↦ absurd (ground (arith, t, h, ==_iff k j, ==_iff j k))
    | inr t ↦ rw t (remove_all-cons ks k x (Map.remove j m) (ground arith))
  ]

  absent-keys_to_remove :
      (k domain : Text) (m : Map Text (RegisteredService Json World))
      → AreKeyed m
      → Map.lookup k m ≡ none
      → IdSet.contains k (keys_to_remove domain m) ≡ false
  unfolding keys_to_remove IdSet.contains Map.values Map.lookup
  absent-keys_to_remove k domain [] h n = refl
  absent-keys_to_remove k domain ((j, x) ∷ m) (p, u, h) n = elim (Bool-cases (j == k)) [
    | inl t ↦ absurd (ground (arith, t, n))
    | inr t ↦
        let rest = absent-keys_to_remove k domain m h (ground (arith, t, n)) in
        let other : (key_of x == k) ≡ false = ap (λ i. i == k) p ∙ t in ground (arith, rest, other)
  ]

  keys_to_remove-cons :
      (domain j : Text) (x : RegisteredService Json World)
      (m : Map Text (RegisteredService Json World))
      → keys_to_remove domain ((j, x) ∷ m) ≡ (
          if x.description.domain == domain
          then key_of x ∷ keys_to_remove domain m
          else keys_to_remove domain m)
  unfolding keys_to_remove Map.values
  keys_to_remove-cons domain j x m = ground arith

  remove-head :
      (j k : Text) (x : RegisteredService Json World) (m : Map Text (RegisteredService Json World))
      → j ≡ k
      → Map.lookup k m ≡ none
      → Map.remove k ((j, x) ∷ m) ≡ m
  unfolding Map.remove
  remove-head j k x m p u = ground (arith, ==_iff j k, remove-absent k m)

  remove_all-keys_to_remove :
      (domain : Text) (m : Map Text (RegisteredService Json World))
      → AreKeyed m
      → remove_all (keys_to_remove domain m) m ≡ others domain m
  unfolding remove_all keys_to_remove Map.values
  remove_all-keys_to_remove domain [] h = refl
  remove_all-keys_to_remove domain ((j, x) ∷ m) (p, u, h) =
      let ih = remove_all-keys_to_remove domain m h in
      let ks = keys_to_remove domain m in
      ap (λ l. remove_all l ((j, x) ∷ m)) (keys_to_remove-cons domain j x m)
      ∙ (elim (Bool-cases (x.description.domain == domain)) [
        | inl v ↦ rw v (
            ap (remove_all ks)
              (remove-head j (key_of x) x m (sym p) (ap (λ i. Map.lookup i m) p ∙ u))
            ∙ ih)
        | inr v ↦ rw v (
            remove_all-cons ks j x m (absent-keys_to_remove j domain m h u)
            ∙ ap (λ n. (j, x) ∷ n) ih)
      ])

module _ {Json : Type 0} where
  -- The description of a service that is not of the domain.
  abbrev pub outside : Text → Option (ServiceDescription Json) → Option (ServiceDescription Json)
  outside domain none = none
  outside domain (some d) = if d.domain == domain then none else some d

module _ {Json World : Type 0} where
  lookup-others :
      (domain k : Text) (m : Map Text (RegisteredService Json World))
      → AreKeyed m
      → description_of (Map.lookup k (others domain m))
        ≡ outside domain (description_of (Map.lookup k m))
  unfolding Map.lookup
  lookup-others domain k [] h = refl
  lookup-others domain k ((j, x) ∷ m) (p, u, h) =
      ground (arith, lookup-others domain k m h, u, ==_iff j k)

  length-keys_to_remove :
      (domain : Text) (m : Map Text (RegisteredService Json World))
      → (length (keys_to_remove domain m) + length (others domain m) ≡ length m)
        × (length (keys_to_remove domain m)
            ≡ length
                (filter (λ (d : ServiceDescription Json). d.domain == domain) (descriptions m)))
  unfolding keys_to_remove Map.values
  length-keys_to_remove domain [] = (refl, refl)
  length-keys_to_remove domain ((j, x) ∷ m) = ground (arith, length-keys_to_remove domain m)

  -- `unregister_domain` returns how many services the domain had, and takes away exactly those: what
  -- is found afterwards is what was found before, but for the services of the domain.
  pub unregister_domain_lem :
      (domain : Text) (r : ServiceRegistry Json World)
      → IsKeyed r
      → let (n, t) = unregister_domain domain r in
        (n ≡ length (domain_services r domain))
        × (n + service_count t ≡ service_count r)
        × ((d s : Text) → get_service t d s ≡ outside domain (get_service r d s))
  unfolding unregister_domain domain_services service_count get_service
  unregister_domain_lem domain r h =
      let (total, counted) = length-keys_to_remove domain r.services in
      let left = remove_all-keys_to_remove domain r.services h in
      (
        counted,
        rw left total,
        λ d s.
            ap (λ m. description_of (Map.lookup (key d s) m)) left
            ∙ lookup-others domain (key d s) r.services h,
      )
