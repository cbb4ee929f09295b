-- ===== src/EntityRegistry.antt =====
-- crates/ha-registries/src/entity_registry.rs: the registry and its indexes. The locks are never
-- poisoned, and no other task works on the registry while a method runs. `file` is what the storage
-- file holds.
pub mod Entry
pub mod Grouping
pub mod Operations
pub mod Creation
pub mod Indexes
pub mod Indexing
pub mod Integrity
pub mod Registration
pub mod Adoption
pub mod Restoring
pub mod Stealing
pub mod Queries
mod Tests
use homeassistant_rs.Base.{
  ℕ, Bool, Option, none, some, List, [], ◌∷◌, ◌++◌, list_eq, nat_eq, pair_eq, filter_map, length,
  ◌==◌, ◌||◌, if◌then◌else◌,
}
use homeassistant_rs.Base.Text.{Text}
use homeassistant_rs.Base.Map
use homeassistant_rs.Base.Map.{Map}
use homeassistant_rs.EntityRegistry.Entry.{EntityEntry}
use homeassistant_rs.EntityRegistry.Grouping.{
  Groups, add, discard, add_option, discard_option, add_each, discard_each, ids,
}

-- `EntityRegistryData`.
pub record EntityRegistryData (Json : Type 0) : Type 0 where
  pub entities : List (EntityEntry Json)
  pub deleted_entities : List (EntityEntry Json)

-- Domain, platform and unique id.
abbrev pub DeletedKey : Type 0
DeletedKey = Text × (Text × Text)

pub record EntityRegistry (Json : Type 0) : Type 0 where
  pub file : Option (EntityRegistryData Json)
  pub by_entity_id : Map Text (EntityEntry Json)
  pub by_unique_id : Map Text Text
  pub by_device_id : Groups
  pub by_config_entry_id : Groups
  pub by_area_id : Groups
  pub by_label_id : Groups
  pub by_platform : Groups
  pub deleted : Map DeletedKey (EntityEntry Json)

-- `format!("{}\0{}", platform, unique_id)`.
unfoldable pub unique_key : Text → Text → Text
unique_key platform unique_id = platform ++ 0 ∷ unique_id

unfoldable pub insert_unique_id : Text → Option Text → Text → Map Text Text → Map Text Text
unfolding unique_key
insert_unique_id platform none entity_id index = index
insert_unique_id platform (some unique_id) entity_id index =
    Map.insert (unique_key platform unique_id) entity_id index

unfoldable pub remove_unique_id : Text → Option Text → Map Text Text → Map Text Text
unfolding unique_key
remove_unique_id platform none index = index
remove_unique_id platform (some unique_id) index = Map.remove (unique_key platform unique_id) index

-- `s.ends_with(p)`.
unfoldable pub ends_with_text : Text → Text → Bool
ends_with_text [] p = [] == p
ends_with_text (a ∷ s) p = a ∷ s == p || ends_with_text s p

-- The loop of `get_by_unique_id`.
unfoldable pub find_suffix : Text → Map Text Text → Option Text
unfolding ends_with_text
find_suffix suffix [] = none
find_suffix suffix ((key, entity_id) ∷ m) =
    let rest = find_suffix suffix m in if ends_with_text key suffix then some entity_id else rest

module _ {Json : Type 0} where
  unfoldable pub new : Option (EntityRegistryData Json) → EntityRegistry Json
  new file = record {
    file = file;
    by_entity_id = [];
    by_unique_id = [];
    by_device_id = [];
    by_config_entry_id = [];
    by_area_id = [];
    by_label_id = [];
    by_platform = [];
    deleted = [];
  }

  unfoldable pub index_entry : EntityEntry Json → EntityRegistry Json → EntityRegistry Json
  unfolding insert_unique_id add_option add_each add
  index_entry e r =
      let id = e.entity_id in
      record r {
        by_unique_id = insert_unique_id e.platform e.unique_id id r.by_unique_id;
        by_device_id = add_option id e.device_id r.by_device_id;
        by_config_entry_id = add_option id e.config_entry_id r.by_config_entry_id;
        by_area_id = add_option id e.area_id r.by_area_id;
        by_label_id = add_each id e.labels r.by_label_id;
        by_platform = add id e.platform r.by_platform;
        by_entity_id = Map.insert id e r.by_entity_id;
      }

  -- What `unindex_entry`, `update` and `bulk_remove` take out of the indexes other than the primary
  -- one; `id` is the id that they take out.
  unfoldable pub unindex_secondary :
      Text → EntityEntry Json → EntityRegistry Json → EntityRegistry Json
  unfolding remove_unique_id discard_option discard_each discard
  unindex_secondary id e r = record r {
    by_unique_id = remove_unique_id e.platform e.unique_id r.by_unique_id;
    by_device_id = discard_option id e.device_id r.by_device_id;
    by_config_entry_id = discard_option id e.config_entry_id r.by_config_entry_id;
    by_area_id = discard_option id e.area_id r.by_area_id;
    by_label_id = discard_each id e.labels r.by_label_id;
    by_platform = discard id e.platform r.by_platform;
  }

  -- `shift_remove` of the primary index.
  unfoldable pub remove_primary : Text → EntityRegistry Json → EntityRegistry Json
  remove_primary id r = record r { by_entity_id = Map.remove id r.by_entity_id }

  unfoldable pub unindex_entry : EntityEntry Json → EntityRegistry Json → EntityRegistry Json
  unfolding unindex_secondary remove_primary
  unindex_entry e r = remove_primary e.entity_id (unindex_secondary e.entity_id e r)

  unfoldable pub get : EntityRegistry Json → Text → Option (EntityEntry Json)
  get r entity_id = Map.lookup entity_id r.by_entity_id

  unfoldable pub get_by_unique_id : EntityRegistry Json → Text → Option (EntityEntry Json)
  unfolding find_suffix get
  get_by_unique_id r unique_id = elim (find_suffix (0 ∷ unique_id) r.by_unique_id) [
    | none ↦ none
    | some entity_id ↦ get r entity_id
  ]

  unfoldable pub get_by_platform_unique_id :
      EntityRegistry Json → Text → Text → Option (EntityEntry Json)
  unfolding unique_key get
  get_by_platform_unique_id r platform unique_id =
      elim (Map.lookup (unique_key platform unique_id) r.by_unique_id) [
        | none ↦ none
        | some entity_id ↦ get r entity_id
      ]

  unfoldable pub get_group : EntityRegistry Json → Groups → Text → List (EntityEntry Json)
  unfolding ids get
  get_group r index key = filter_map (get r) (ids index key)

  unfoldable pub get_by_device_id : EntityRegistry Json → Text → List (EntityEntry Json)
  unfolding get_group
  get_by_device_id r device_id = get_group r r.by_device_id device_id

  unfoldable pub get_by_config_entry_id : EntityRegistry Json → Text → List (EntityEntry Json)
  unfolding get_group
  get_by_config_entry_id r config_entry_id = get_group r r.by_config_entry_id config_entry_id

  unfoldable pub get_by_area_id : EntityRegistry Json → Text → List (EntityEntry Json)
  unfolding get_group
  get_by_area_id r area_id = get_group r r.by_area_id area_id

  unfoldable pub get_by_label_id : EntityRegistry Json → Text → List (EntityEntry Json)
  unfolding get_group
  get_by_label_id r label_id = get_group r r.by_label_id label_id

  unfoldable pub get_by_platform : EntityRegistry Json → Text → List (EntityEntry Json)
  unfolding get_group
  get_by_platform r platform = get_group r r.by_platform platform

  unfoldable pub entity_ids : EntityRegistry Json → List Text
  entity_ids r = Map.keys r.by_entity_id

  unfoldable pub len : EntityRegistry Json → ℕ
  len r = length r.by_entity_id

  unfoldable pub is_registered : EntityRegistry Json → Text → Bool
  is_registered r entity_id = Map.contains_key entity_id r.by_entity_id
