-- ===== src/ServiceRegistry/Keys.antt =====
-- The keys of crates/ha-service-registry/src/lib.rs: when two services have one key, and the
-- invariant that each service stands under the key of its own description, once.
use homeassistant_rs.Base.{
  ◌≡◌, refl, sym, Bool, false, Option, none, List, [], ◌∷◌, arith, ==_iff, ◌==◌, list_eq, nat_eq,
  Bool-cases, inl, inr,
}
use homeassistant_rs.Base.Text.{Text}
use homeassistant_rs.Base.Map
use homeassistant_rs.Base.Map.{Map, lookup-insert, lookup-remove}
use homeassistant_rs.Base.IdSet
use homeassistant_rs.ServiceRegistry.{
  ServiceDescription, ServiceHandler, RegisteredService, ServiceRegistry, key, new, register,
  register_with_description, unregister, remove_all, keys_to_remove, unregister_domain,
}
use homeassistant_rs.Core.ServiceCall.{SupportsResponse}

-- No dot, U+002E, in the text.
abbrev pub has_dot : Text → Bool
has_dot s = IdSet.contains 46 s

-- Domains without a dot make the key tell the services apart.
pub key-injective :
    (d s d' s' : Text)
    → has_dot d ≡ false
    → has_dot d' ≡ false
    → key d s ≡ key d' s'
    → (d ≡ d') × (s ≡ s')
unfolding key IdSet.contains
key-injective [] s [] s' h h' p = (refl, ground arith)
key-injective [] s (a ∷ d') s' h h' p = absurd (ground (arith, ==_iff a 46))
key-injective (a ∷ d) s [] s' h h' p = absurd (ground (arith, ==_iff a 46))
key-injective (a ∷ d) s (b ∷ d') s' h h' p =
    let (x, y) = key-injective d s d' s' (ground arith) (ground arith) (ground arith) in
    (ground arith, y)

module _ {Json World : Type 0} where
  abbrev pub key_of : RegisteredService Json World → Text
  key_of x = key x.description.domain x.description.service

  abbrev pub AreKeyed : Map Text (RegisteredService Json World) → Type 0
  AreKeyed [] = Unit
  AreKeyed ((k, x) ∷ m) = (key_of x ≡ k) × (Map.lookup k m ≡ none) × AreKeyed m

  abbrev pub IsKeyed : ServiceRegistry Json World → Type 0
  IsKeyed r = AreKeyed r.services

  insert-AreKeyed :
      (x : RegisteredService Json World) (m : Map Text (RegisteredService Json World))
      → AreKeyed m
      → AreKeyed (Map.insert (key_of x) x m)
  unfolding Map.insert Map.lookup
  insert-AreKeyed x [] h = (refl, refl, tt)
  insert-AreKeyed x ((k, y) ∷ m) (p, u, h) = elim (Bool-cases (k == key_of x)) [
    | inl t ↦ rw t (sym ((==_iff k (key_of x)).0 t), u, h)
    | inr t ↦ rw t (
      p,
      ground (arith, lookup-insert (key_of x) k x m, ==_iff (key_of x) k, ==_iff k (key_of x)),
      insert-AreKeyed x m h,
    )
  ]

  pub remove-AreKeyed :
      (k : Text) (m : Map Text (RegisteredService Json World))
      → AreKeyed m
      → AreKeyed (Map.remove k m)
  unfolding Map.remove
  remove-AreKeyed k [] h = tt
  remove-AreKeyed k ((j, y) ∷ m) (p, u, h) = elim (Bool-cases (j == k)) [
    | inl t ↦ rw t (remove-AreKeyed k m h)
    | inr t ↦
        rw t (p, ground (arith, lookup-remove k j m, ==_iff k j, ==_iff j k), remove-AreKeyed k m h)
  ]

  remove_all-AreKeyed :
      (ks : List Text) (m : Map Text (RegisteredService Json World))
      → AreKeyed m
      → AreKeyed (remove_all ks m)
  unfolding remove_all
  remove_all-AreKeyed [] m h = h
  remove_all-AreKeyed (k ∷ ks) m h = remove_all-AreKeyed ks (Map.remove k m) (remove-AreKeyed k m h)

-- The calls that change the registry.
pub data Change (Json World : Type 0) : Type 0 where
  registration :
      Text → Text → ServiceHandler Json World → Option Json → SupportsResponse → Change Json World
  full_registration : ServiceDescription Json → ServiceHandler Json World → Change Json World
  removal : Text → Text → Change Json World
  domain_removal : Text → Change Json World

module _ {Json World : Type 0} where
  unfoldable pub change :
      Change Json World → ServiceRegistry Json World → ServiceRegistry Json World
  unfolding register register_with_description unregister unregister_domain
  change (registration domain service handler schema supports) r =
      register domain service handler schema supports r
  change (full_registration description handler) r = register_with_description description handler r
  change (removal domain service) r = (unregister domain service r).1
  change (domain_removal domain) r = (unregister_domain domain r).1

  change-IsKeyed :
      (c : Change Json World) (r : ServiceRegistry Json World) → IsKeyed r → IsKeyed (change c r)
  unfolding change register register_with_description unregister unregister_domain
  change-IsKeyed (registration domain service handler schema supports) r h =
      insert-AreKeyed _ r.services h
  change-IsKeyed (full_registration description handler) r h = insert-AreKeyed _ r.services h
  change-IsKeyed (removal domain service) r h = remove-AreKeyed _ r.services h
  change-IsKeyed (domain_removal domain) r h =
      remove_all-AreKeyed (keys_to_remove domain r.services) r.services h

  unfoldable pub run :
      List (Change Json World) → ServiceRegistry Json World → ServiceRegistry Json World
  unfolding change
  run [] r = r
  run (c ∷ cs) r = run cs (change c r)

  run-IsKeyed :
      (cs : List (Change Json World)) (r : ServiceRegistry Json World)
      → IsKeyed r
      → IsKeyed (run cs r)
  unfolding run
  run-IsKeyed [] r h = h
  run-IsKeyed (c ∷ cs) r h = run-IsKeyed cs (change c r) (change-IsKeyed c r h)

  -- Any registrations and removals, from an empty registry, leave each service under the key of its
  -- description, and no key twice.
  pub run-new-IsKeyed : (cs : List (Change Json World)) → IsKeyed (run cs new)
  unfolding new
  run-new-IsKeyed cs = run-IsKeyed cs new tt
