-- ===== src/EntityRegistry/Indexes.antt =====
-- The invariant of crates/ha-registries/src/entity_registry.rs: each entity stands under its id, each
-- index of a field leads to the entities that have the value, once each, and the unique ids lead to
-- their entities and back.
use homeassistant_rs.Base.{
  ◌≡◌, refl, Bool, true, false, Option, none, some, List, [], ◌∷◌, arith, ◌==◌, list_eq, nat_eq,
  option_eq, if◌then◌else◌,
}
use homeassistant_rs.Base.Text.{Text}
use homeassistant_rs.Base.Map
use homeassistant_rs.Base.Map.{Map, lookup-insert, lookup-remove}
use homeassistant_rs.Base.IdSet
use homeassistant_rs.EntityRegistry.Entry.{EntityEntry}
use homeassistant_rs.Registries.Indexing.{IsGrouped}
use homeassistant_rs.EntityRegistry.Grouping.{ids, to_list}
use homeassistant_rs.EntityRegistry.{
  EntityRegistry, unique_key, insert_unique_id, remove_unique_id, new, index_entry,
  unindex_secondary, remove_primary, unindex_entry, get,
}

abbrev pub key_of_unique : Text → Option Text → Option Text
key_of_unique platform none = none
key_of_unique platform (some unique_id) = some (unique_key platform unique_id)

lookup-insert_unique_id :
    (p : Text) (o : Option Text) (id k : Text) (m : Map Text Text)
    → Map.lookup k (insert_unique_id p o id m)
      ≡ (if key_of_unique p o == some k then some id else Map.lookup k m)
unfolding insert_unique_id
lookup-insert_unique_id p none id k m = ground arith
lookup-insert_unique_id p (some u) id k m = lookup-insert (unique_key p u) k id m

lookup-remove_unique_id :
    (p : Text) (o : Option Text) (k : Text) (m : Map Text Text)
    → Map.lookup k (remove_unique_id p o m)
      ≡ (if key_of_unique p o == some k then none else Map.lookup k m)
unfolding remove_unique_id
lookup-remove_unique_id p none k m = ground arith
lookup-remove_unique_id p (some u) k m = lookup-remove (unique_key p u) k m

module _ {Json : Type 0} where
  -- The values of the fields that are indexed.
  abbrev pub devices : EntityEntry Json → List Text
  devices e = to_list e.device_id

  abbrev pub config_entries : EntityEntry Json → List Text
  config_entries e = to_list e.config_entry_id

  abbrev pub areas : EntityEntry Json → List Text
  areas e = to_list e.area_id

  abbrev pub labels : EntityEntry Json → List Text
  labels e = e.labels

  abbrev pub platforms : EntityEntry Json → List Text
  platforms e = e.platform ∷ []

  -- The key of an entity in the index of the unique ids.
  abbrev pub unique_key_of : EntityEntry Json → Option Text
  unique_key_of e = key_of_unique e.platform e.unique_id

  abbrev pub owns : Text → Option (EntityEntry Json) → Bool
  owns key none = false
  owns key (some e) = unique_key_of e == some key

  abbrev pub owner : EntityRegistry Json → Text → Option Text
  owner r key = Map.lookup key r.by_unique_id

  pub record IsIndexed (r : EntityRegistry Json) : Type 0 where
    pub keyed : (id : Text) (e : EntityEntry Json) → get r id ≡ some e → e.entity_id ≡ id
    pub by_device : IsGrouped devices r.by_device_id r.by_entity_id
    pub by_config_entry : IsGrouped config_entries r.by_config_entry_id r.by_entity_id
    pub by_area : IsGrouped areas r.by_area_id r.by_entity_id
    pub by_label : IsGrouped labels r.by_label_id r.by_entity_id
    pub by_platforms : IsGrouped platforms r.by_platform r.by_entity_id
    pub owned : (key id : Text) → owner r key ≡ some id → owns key (get r id) ≡ true
    pub leads : (key id : Text) → owns key (get r id) ≡ true → owner r key ≡ some id

  pub get-index_entry :
      (e : EntityEntry Json) (r : EntityRegistry Json) (j : Text)
      → get (index_entry e r) j ≡ (if e.entity_id == j then some e else get r j)
  unfolding get index_entry
  get-index_entry e r j = lookup-insert e.entity_id j e r.by_entity_id

  pub get-unindex_entry :
      (e : EntityEntry Json) (r : EntityRegistry Json) (j : Text)
      → get (unindex_entry e r) j ≡ (if e.entity_id == j then none else get r j)
  unfolding get unindex_entry remove_primary unindex_secondary
  get-unindex_entry e r j = lookup-remove e.entity_id j r.by_entity_id

  pub owner-index_entry :
      (e : EntityEntry Json) (r : EntityRegistry Json) (key : Text)
      → owner (index_entry e r) key ≡ (if owns key (some e) then some e.entity_id else owner r key)
  unfolding index_entry
  owner-index_entry e r key =
      lookup-insert_unique_id e.platform e.unique_id e.entity_id key r.by_unique_id

  pub owner-unindex_entry :
      (e : EntityEntry Json) (r : EntityRegistry Json) (key : Text)
      → owner (unindex_entry e r) key ≡ (if owns key (some e) then none else owner r key)
  unfolding unindex_entry remove_primary unindex_secondary
  owner-unindex_entry e r key = lookup-remove_unique_id e.platform e.unique_id key r.by_unique_id

  pub new-IsIndexed : IsIndexed (new none)
  unfolding new get Map.lookup ids IdSet.count
  new-IsIndexed = record {
    keyed = λ id e h. ground arith;
    by_device = λ key id. refl;
    by_config_entry = λ key id. refl;
    by_area = λ key id. refl;
    by_label = λ key id. refl;
    by_platforms = λ key id. refl;
    owned = λ key id h. ground arith;
    leads = λ key id h. ground arith;
  }

  -- No entity has the unique id of `e` yet.
  abbrev pub IsFree : EntityEntry Json → EntityRegistry Json → Type 0
  IsFree e r = (key : Text) → owns key (some e) ≡ true → owner r key ≡ none
