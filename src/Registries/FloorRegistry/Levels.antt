-- ===== src/Registries/FloorRegistry/Levels.antt =====
-- The index by level of crates/ha-registries/src/floor_registry.rs, which holds one floor for a level.
use homeassistant_rs.Base.{◌≡◌, ap, ◌∙◌, none, some, false, list_eq, nat_eq, ◌==◌, ==_iff, arith}
use homeassistant_rs.Base.Text.{Text}
use homeassistant_rs.Base.Int.{ℤ, int_eq}
use homeassistant_rs.Base.Map
use homeassistant_rs.Base.Map.{Map, lookup-remove}
use homeassistant_rs.Registries.FloorRegistry.{
  FloorEntry, FloorRegistry, get, get_of, get_by_level, remove_of, remove, unindex_entry,
  unindex_secondary, remove_primary, remove_level,
}

no_level :
    (e : FloorEntry) (l : ℤ) (id : Text) (r : FloorRegistry)
    → e.level ≡ some l
    → Map.lookup l (unindex_entry e (remove_primary id r)).by_level ≡ none
unfolding unindex_entry unindex_secondary remove_primary
no_level e l id r at =
    ap (λ o. Map.lookup l (remove_level o r.by_level)) at
    ∙ ground (arith, lookup-remove l l r.by_level, ==_iff l l)

still_there :
    (e : FloorEntry) (id j : Text) (r : FloorRegistry)
    → e.id ≡ id
    → (id == j) ≡ false
    → get (unindex_entry e (remove_primary id r)) j ≡ get r j
unfolding get unindex_entry unindex_secondary remove_primary
still_there e id j r place other =
    ground (
      arith,
      lookup-remove e.id j (Map.remove id r.by_id),
      lookup-remove id j r.by_id,
      place,
      other,
    )

-- After a floor that has a level is removed, no floor is found at that level, although another
-- floor that has it is still registered.
pub remove_hides_level :
    (r : FloorRegistry) (id j : Text) (e w : FloorEntry) (l : ℤ)
    → get r id ≡ some e
    → e.id ≡ id
    → e.level ≡ some l
    → get r j ≡ some w
    → w.level ≡ some l
    → (id == j) ≡ false
    → (get (remove id r).1 j ≡ some w) × (get_by_level (remove id r).1 l ≡ none)
unfolding remove remove_of get_by_level get_of
remove_hides_level r id j e w l there place at another at_too other = (
  ap (λ o. get (remove_of o id r).1 j) there ∙ still_there e id j r place other ∙ another,
  ap (λ o. get_by_level (remove_of o id r).1 l) there
      ∙ ap (get_of (unindex_entry e (remove_primary id r))) (no_level e l id r at),
)
