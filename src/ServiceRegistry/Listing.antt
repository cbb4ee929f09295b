-- ===== src/ServiceRegistry/Listing.antt =====
-- `domains` and `all_services` of crates/ha-service-registry/src/lib.rs.
use mathlib.Core.List.{append-nil, append_assoc}
use homeassistant_rs.Base.{
  ◌≡◌, refl, ◌∙◌, sym, true, List, [], ◌∷◌, ◌++◌, map, arith, ==_iff, ◌==◌, list_eq, nat_eq,
  if◌then◌else◌, filter, length, ltb, unwrap_or, is_ascending, dedup-sort-is_ascending,
  contains-dedup-sort, Bool-cases, inl, inr,
}
use homeassistant_rs.Base.Text.{Text}
use homeassistant_rs.Base.Map
use homeassistant_rs.Base.Map.{Map, lookup-insert}
use homeassistant_rs.Base.IdSet
use homeassistant_rs.ServiceRegistry.{
  ServiceDescription, ServiceRegistry, descriptions, domain_services, domains, group, all_services,
}

module _ {Json : Type 0} where
  abbrev of_domain : Text → List (ServiceDescription Json) → List (ServiceDescription Json)
  of_domain domain ds = filter (λ (d : ServiceDescription Json). d.domain == domain) ds

  abbrev listed : Text → Map Text (List (ServiceDescription Json)) → List (ServiceDescription Json)
  listed domain m = unwrap_or (Map.lookup domain m) []

  listed-insert :
      (d : ServiceDescription Json) (domain : Text) (m : Map Text (List (ServiceDescription Json)))
      → listed domain (Map.insert d.domain (listed d.domain m ++ d ∷ []) m)
        ≡ (if d.domain == domain then listed domain m ++ d ∷ [] else listed domain m)
  listed-insert d domain m =
      ground (
        arith,
        lookup-insert d.domain domain (listed d.domain m ++ d ∷ []) m,
        ==_iff d.domain domain,
      )

  listed-group :
      (ds : List (ServiceDescription Json)) (domain : Text)
      (m : Map Text (List (ServiceDescription Json)))
      → listed domain (group ds m) ≡ listed domain m ++ of_domain domain ds
  unfolding group
  listed-group [] domain m = sym (append-nil (listed domain m))
  listed-group (d ∷ ds) domain m =
      listed-group ds domain (Map.insert d.domain (listed d.domain m ++ d ∷ []) m)
      ∙ rw (listed-insert d domain m) (elim (Bool-cases (d.domain == domain)) [
        | inl t ↦ rw t (append_assoc (listed domain m) (d ∷ []) (of_domain domain ds))
        | inr t ↦ rw t refl
      ])

  contains-domain :
      (domain : Text) (ds : List (ServiceDescription Json))
      → IdSet.contains domain (map (λ (d : ServiceDescription Json). d.domain) ds)
        ≡ ltb 0 (length (of_domain domain ds))
  unfolding IdSet.contains
  contains-domain domain [] = refl
  contains-domain domain (d ∷ ds) = ground (arith, contains-domain domain ds)

module _ {Json World : Type 0} where
  -- `all_services` groups by domain: under each domain it has what `domain_services` lists, in the
  -- same order.
  pub all_services-domain_services :
      (r : ServiceRegistry Json World) (domain : Text)
      → unwrap_or (Map.lookup domain (all_services r)) [] ≡ domain_services r domain
  unfolding all_services domain_services Map.lookup
  all_services-domain_services r domain = listed-group (descriptions r.services) domain []

  -- `domains` is in strictly ascending order, and lists the domains that have a service.
  pub domains_lem :
      (r : ServiceRegistry Json World)
      → (is_ascending (domains r) ≡ true)
        × ((domain : Text)
            → IdSet.contains domain (domains r) ≡ ltb 0 (length (domain_services r domain)))
  unfolding domains domain_services
  domains_lem r =
      let all = map (λ (d : ServiceDescription Json). d.domain) (descriptions r.services) in
      (
        dedup-sort-is_ascending all,
        λ domain. contains-dedup-sort domain all ∙ contains-domain domain (descriptions r.services),
      )
