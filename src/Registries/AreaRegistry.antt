-- ===== src/Registries/AreaRegistry.antt =====
-- crates/ha-registries/src/area_registry.rs. No other task works on the registry while a method runs.
-- The outcome of a read or a write of the file is the argument `disk`, and `clock` is `Utc::now`.
pub mod Integrity
pub mod Updating
pub mod Clearing
pub mod Runs
use homeassistant_rs.Base.{
  ℕ, Bool, true, false, not, ◌&&◌, ◌||◌, Option, none, some, List, [], ◌∷◌, ◌++◌, list_eq, nat_eq,
  option_eq, ◌==◌, filter, filter_map, length, if◌then◌else◌, Result, ok, err, unwrap_or,
}
use homeassistant_rs.Base.Text.{Text, text}
use homeassistant_rs.Base.Map
use homeassistant_rs.Base.Map.{Map}
use homeassistant_rs.EntityRegistry.Grouping.{
  Groups, add_option, discard_option, add_each, discard_each, ids,
}
use homeassistant_rs.Registries.Naming.{
  Unicode, normalize_name, generate_id, insert_name, remove_name, name_in_use,
}

pub record AreaEntry : Type 0 where
  pub id : Text
  pub name : Text
  pub normalized_name : Option Text
  pub picture : Option Text
  pub icon : Option Text
  pub aliases : List Text
  pub floor_id : Option Text
  pub humidity_entity_id : Option Text
  pub temperature_entity_id : Option Text
  pub labels : List Text
  pub created_at : ℕ
  pub modified_at : ℕ

-- `file` is what the storage file holds.
pub record AreaRegistry : Type 0 where
  pub file : Option (List AreaEntry)
  pub by_id : Map Text AreaEntry
  pub by_name : Map Text Text
  pub by_floor_id : Groups
  pub by_label_id : Groups

unfoldable pub new : Option (List AreaEntry) → AreaRegistry
new file = record { file = file; by_id = []; by_name = []; by_floor_id = []; by_label_id = [] }

unfoldable pub index_entry : AreaEntry → AreaRegistry → AreaRegistry
unfolding insert_name add_option add_each
index_entry e r = record r {
  by_name = insert_name e.normalized_name e.id r.by_name;
  by_floor_id = add_option e.id e.floor_id r.by_floor_id;
  by_label_id = add_each e.id e.labels r.by_label_id;
  by_id = Map.insert e.id e r.by_id;
}

-- The removal from the indexes by id.
unfoldable pub remove_primary : Text → AreaRegistry → AreaRegistry
remove_primary area_id r = record r { by_id = Map.remove area_id r.by_id }

-- The other indexes.
unfoldable pub unindex_secondary : AreaEntry → AreaRegistry → AreaRegistry
unfolding remove_name discard_option discard_each
unindex_secondary e r = record r {
  by_name = remove_name e.normalized_name r.by_name;
  by_floor_id = discard_option e.id e.floor_id r.by_floor_id;
  by_label_id = discard_each e.id e.labels r.by_label_id;
}

unfoldable pub unindex_entry : AreaEntry → AreaRegistry → AreaRegistry
unfolding unindex_secondary remove_primary
unindex_entry e r = remove_primary e.id (unindex_secondary e r)

unfoldable pub index_all : List AreaEntry → AreaRegistry → AreaRegistry
unfolding index_entry
index_all [] r = r
index_all (e ∷ es) r = index_all es (index_entry e r)

unfoldable pub load : {E : Type 0} → Option E → AreaRegistry → Result E (Unit {0}) × AreaRegistry
unfolding index_all
load (some e) r = (err e, r)
load none r = (ok tt, index_all (unwrap_or r.file []) r)

unfoldable pub save : {E : Type 0} → Option E → AreaRegistry → Result E (Unit {0}) × AreaRegistry
save (some e) r = (err e, r)
save none r = (ok tt, record r { file = some (Map.values r.by_id) })

unfoldable pub get : AreaRegistry → Text → Option AreaEntry
get r area_id = Map.lookup area_id r.by_id

-- `and_then` of `get_by_name`.
unfoldable pub get_of : AreaRegistry → Option Text → Option AreaEntry
unfolding get
get_of r none = none
get_of r (some area_id) = get r area_id

unfoldable pub get_by_floor_id : AreaRegistry → Text → List AreaEntry
unfolding ids get
get_by_floor_id r floor_id = filter_map (get r) (ids r.by_floor_id floor_id)

unfoldable pub get_by_label_id : AreaRegistry → Text → List AreaEntry
unfolding ids get
get_by_label_id r label_id = filter_map (get r) (ids r.by_label_id label_id)

-- `remove` takes the entry out of the primary index twice.
unfoldable pub remove_of : Option AreaEntry → Text → AreaRegistry → Option AreaEntry × AreaRegistry
unfolding unindex_entry remove_primary
remove_of none area_id r = (none, r)
remove_of (some e) area_id r = (some e, unindex_entry e (remove_primary area_id r))

unfoldable pub remove : Text → AreaRegistry → Option AreaEntry × AreaRegistry
unfolding remove_of get
remove area_id r = remove_of (get r area_id) area_id r

-- The loops of `clear_floor_id` and `clear_label_id`, which change the entries of a group.
unfoldable pub rewrite : (AreaEntry → AreaEntry) → List Text → AreaRegistry → AreaRegistry
rewrite f [] r = r
rewrite f (area_id ∷ area_ids) r =
    rewrite f area_ids (record r { by_id = Map.modify area_id f r.by_id })

unfoldable pub without_floor : ℕ → AreaEntry → AreaEntry
without_floor clock e = record e { floor_id = none; modified_at = clock }

unfoldable pub without_label : Text → ℕ → AreaEntry → AreaEntry
without_label label_id clock e = record e {
  labels = filter (λ l. not (l == label_id)) e.labels;
  modified_at = clock;
}

unfoldable pub clear_floor_id : ℕ → Text → AreaRegistry → AreaRegistry
unfolding rewrite without_floor ids
clear_floor_id clock floor_id r =
    let cleared = rewrite (without_floor clock) (ids r.by_floor_id floor_id) r in
    record cleared { by_floor_id = Map.remove floor_id cleared.by_floor_id }

unfoldable pub clear_label_id : ℕ → Text → AreaRegistry → AreaRegistry
unfolding rewrite without_label ids
clear_label_id clock label_id r =
    let cleared = rewrite (without_label label_id clock) (ids r.by_label_id label_id) r in
    record cleared { by_label_id = Map.remove label_id cleared.by_label_id }

unfoldable pub len : AreaRegistry → ℕ
len r = length r.by_id

-- What `update` compares.
unfoldable pub is_changed : AreaEntry → AreaEntry → Bool
is_changed e old =
    not (e.name == old.name)
    || not (e.aliases == old.aliases)
    || not (e.floor_id == old.floor_id)
    || not (e.humidity_entity_id == old.humidity_entity_id)
    || not (e.icon == old.icon)
    || not (e.labels == old.labels)
    || not (e.picture == old.picture)
    || not (e.temperature_entity_id == old.temperature_entity_id)

unfoldable pub stamp : Option ℕ → ℕ → AreaEntry → AreaEntry → AreaEntry
unfolding is_changed
stamp now clock e old =
    if is_changed e old then record e { modified_at = unwrap_or now clock } else e

module _ (unicode : Unicode) where
  unfoldable pub new_entry : Text → Text → Option ℕ → ℕ → AreaEntry
  unfolding normalize_name
  new_entry id name now clock =
      let at = unwrap_or now clock in
      record {
        id = id;
        name = name;
        normalized_name = some (normalize_name unicode name);
        picture = none;
        icon = none;
        aliases = [];
        floor_id = none;
        humidity_entity_id = none;
        temperature_entity_id = none;
        labels = [];
        created_at = at;
        modified_at = at;
      }

  unfoldable pub get_by_name : AreaRegistry → Text → Option AreaEntry
  unfolding normalize_name get_of
  get_by_name r name = get_of r (Map.lookup (normalize_name unicode name) r.by_name)

  unfoldable pub create : Text → Option ℕ → ℕ → AreaRegistry → Result Text AreaEntry × AreaRegistry
  unfolding normalize_name generate_id new_entry index_entry name_in_use
  create name now clock r =
      let normalized = normalize_name unicode name in
      let e = new_entry (generate_id r.by_id unicode name) name now clock in
      if Map.contains_key normalized r.by_name
      then (err (name_in_use name normalized), r)
      else (ok e, index_entry e r)

  -- The entry that `update` has after the closure `f`.
  unfoldable pub apply : (AreaEntry → AreaEntry) → AreaEntry → AreaEntry
  unfolding normalize_name
  apply f e = record (f e) { normalized_name = some (normalize_name unicode (f e).name) }

  -- What `update` does with the changed entry `e`, in a registry that `old` has been taken out of.
  unfoldable pub reindex :
      Option ℕ → ℕ → AreaEntry → AreaEntry → AreaRegistry → Result Text AreaEntry × AreaRegistry
  unfolding normalize_name index_entry name_in_use stamp
  reindex now clock e old r =
      let normalized = normalize_name unicode e.name in
      if not (e.name == old.name) && Map.contains_key normalized r.by_name
      then (err (name_in_use e.name normalized), index_entry old r)
      else (ok (stamp now clock e old), index_entry (stamp now clock e old) r)

  unfoldable pub update_of :
      Option AreaEntry
      → Text
      → (AreaEntry → AreaEntry)
      → Option ℕ
      → ℕ
      → AreaRegistry
      → Result Text AreaEntry × AreaRegistry
  unfolding remove_primary unindex_secondary apply reindex
  update_of none area_id f now clock r = (err (text "Area not found: " ++ area_id), r)
  update_of (some e) area_id f now clock r =
      reindex now clock (apply f e) e (unindex_secondary e (remove_primary area_id r))

  unfoldable pub update :
      Text
      → (AreaEntry → AreaEntry)
      → Option ℕ
      → ℕ
      → AreaRegistry
      → Result Text AreaEntry × AreaRegistry
  unfolding update_of get
  update area_id f now clock r = update_of (get r area_id) area_id f now clock r
