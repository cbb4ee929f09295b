-- ===== src/Registries/FloorRegistry.antt =====
-- crates/ha-registries/src/floor_registry.rs, without `sorted_by_level`. No other task works on the
-- registry while a method runs. The outcome of a read or a write of the file is the argument `disk`,
-- and `clock` is `Utc::now`.
pub mod Levels
use homeassistant_rs.Base.{
  ℕ, Bool, not, ◌&&◌, ◌||◌, Option, none, some, List, [], ◌∷◌, ◌++◌, list_eq, nat_eq, option_eq,
  ◌==◌, length, if◌then◌else◌, Result, ok, err, unwrap_or,
}
use homeassistant_rs.Base.Text.{Text, text}
use homeassistant_rs.Base.Int.{ℤ, int_eq}
use homeassistant_rs.Base.Map
use homeassistant_rs.Base.Map.{Map}
use homeassistant_rs.Registries.Naming.{
  Unicode, normalize_name, generate_id, insert_name, remove_name, name_in_use,
}

pub record FloorEntry : Type 0 where
  pub id : Text
  pub name : Text
  pub normalized_name : Option Text
  pub icon : Option Text
  pub level : Option ℤ
  pub aliases : List Text
  pub created_at : ℕ
  pub modified_at : ℕ

-- `file` is what the storage file holds.
pub record FloorRegistry : Type 0 where
  pub file : Option (List FloorEntry)
  pub by_id : Map Text FloorEntry
  pub by_name : Map Text Text
  pub by_level : Map ℤ Text

unfoldable pub new : Option (List FloorEntry) → FloorRegistry
new file = record { file = file; by_id = []; by_name = []; by_level = [] }

unfoldable pub insert_level : Option ℤ → Text → Map ℤ Text → Map ℤ Text
insert_level none id index = index
insert_level (some level) id index = Map.insert level id index

unfoldable pub remove_level : Option ℤ → Map ℤ Text → Map ℤ Text
remove_level none index = index
remove_level (some level) index = Map.remove level index

unfoldable pub index_entry : FloorEntry → FloorRegistry → FloorRegistry
unfolding insert_name insert_level
index_entry e r = record r {
  by_name = insert_name e.normalized_name e.id r.by_name;
  by_level = insert_level e.level e.id r.by_level;
  by_id = Map.insert e.id e r.by_id;
}

unfoldable pub remove_primary : Text → FloorRegistry → FloorRegistry
remove_primary floor_id r = record r { by_id = Map.remove floor_id r.by_id }

unfoldable pub unindex_secondary : FloorEntry → FloorRegistry → FloorRegistry
unfolding remove_name remove_level
unindex_secondary e r = record r {
  by_name = remove_name e.normalized_name r.by_name;
  by_level = remove_level e.level r.by_level;
}

unfoldable pub unindex_entry : FloorEntry → FloorRegistry → FloorRegistry
unfolding unindex_secondary remove_primary
unindex_entry e r = remove_primary e.id (unindex_secondary e r)

unfoldable pub index_all : List FloorEntry → FloorRegistry → FloorRegistry
unfolding index_entry
index_all [] r = r
index_all (e ∷ es) r = index_all es (index_entry e r)

unfoldable pub load : {E : Type 0} → Option E → FloorRegistry → Result E (Unit {0}) × FloorRegistry
unfolding index_all
load (some e) r = (err e, r)
load none r = (ok tt, index_all (unwrap_or r.file []) r)

unfoldable pub save : {E : Type 0} → Option E → FloorRegistry → Result E (Unit {0}) × FloorRegistry
save (some e) r = (err e, r)
save none r = (ok tt, record r { file = some (Map.values r.by_id) })

unfoldable pub get : FloorRegistry → Text → Option FloorEntry
get r floor_id = Map.lookup floor_id r.by_id

-- `and_then` of the queries by name and by level.
unfoldable pub get_of : FloorRegistry → Option Text → Option FloorEntry
unfolding get
get_of r none = none
get_of r (some floor_id) = get r floor_id

unfoldable pub get_by_level : FloorRegistry → ℤ → Option FloorEntry
unfolding get_of
get_by_level r level = get_of r (Map.lookup level r.by_level)

unfoldable pub remove_of :
    Option FloorEntry → Text → FloorRegistry → Option FloorEntry × FloorRegistry
unfolding unindex_entry remove_primary
remove_of none floor_id r = (none, r)
remove_of (some e) floor_id r = (some e, unindex_entry e (remove_primary floor_id r))

unfoldable pub remove : Text → FloorRegistry → Option FloorEntry × FloorRegistry
unfolding remove_of get
remove floor_id r = remove_of (get r floor_id) floor_id r

unfoldable pub len : FloorRegistry → ℕ
len r = length r.by_id

-- What `update` compares.
unfoldable pub is_changed : FloorEntry → FloorEntry → Bool
is_changed e old =
    not (e.name == old.name)
    || not (e.aliases == old.aliases)
    || not (e.icon == old.icon)
    || not (e.level == old.level)

unfoldable pub stamp : Option ℕ → ℕ → FloorEntry → FloorEntry → FloorEntry
unfolding is_changed
stamp now clock e old =
    if is_changed e old then record e { modified_at = unwrap_or now clock } else e

module _ (unicode : Unicode) where
  unfoldable pub new_entry : Text → Text → Option ℤ → Option ℕ → ℕ → FloorEntry
  unfolding normalize_name
  new_entry id name level now clock =
      let at = unwrap_or now clock in
      record {
        id = id;
        name = name;
        normalized_name = some (normalize_name unicode name);
        icon = none;
        level = level;
        aliases = [];
        created_at = at;
        modified_at = at;
      }

  unfoldable pub get_by_name : FloorRegistry → Text → Option FloorEntry
  unfolding normalize_name get_of
  get_by_name r name = get_of r (Map.lookup (normalize_name unicode name) r.by_name)

  unfoldable pub create :
      Text → Option ℤ → Option ℕ → ℕ → FloorRegistry → Result Text FloorEntry × FloorRegistry
  unfolding normalize_name generate_id new_entry index_entry name_in_use
  create name level now clock r =
      let normalized = normalize_name unicode name in
      let e = new_entry (generate_id r.by_id unicode name) name level now clock in
      if Map.contains_key normalized r.by_name
      then (err (name_in_use name normalized), r)
      else (ok e, index_entry e r)

  -- The entry that `update` has after the closure `f`.
  unfoldable pub apply : (FloorEntry → FloorEntry) → FloorEntry → FloorEntry
  unfolding normalize_name
  apply f e = record (f e) { normalized_name = some (normalize_name unicode (f e).name) }

  -- What `update` does with the changed entry `e`, in a registry that `old` has been taken out of.
  unfoldable pub reindex :
      Option ℕ
      → ℕ
      → FloorEntry
      → FloorEntry
      → FloorRegistry
      → Result Text FloorEntry × FloorRegistry
  unfolding normalize_name index_entry name_in_use stamp
  reindex now clock e old r =
      let normalized = normalize_name unicode e.name in
      if not (e.name == old.name) && Map.contains_key normalized r.by_name
      then (err (name_in_use e.name normalized), index_entry old r)
      else (ok (stamp now clock e old), index_entry (stamp now clock e old) r)

  unfoldable pub update_of :
      Option FloorEntry
      → Text
      → (FloorEntry → FloorEntry)
      → Option ℕ
      → ℕ
      → FloorRegistry
      → Result Text FloorEntry × FloorRegistry
  unfolding remove_primary unindex_secondary apply reindex
  update_of none floor_id f now clock r = (err (text "Floor not found: " ++ floor_id), r)
  update_of (some e) floor_id f now clock r =
      reindex now clock (apply f e) e (unindex_secondary e (remove_primary floor_id r))

  unfoldable pub update :
      Text
      → (FloorEntry → FloorEntry)
      → Option ℕ
      → ℕ
      → FloorRegistry
      → Result Text FloorEntry × FloorRegistry
  unfolding update_of get
  update floor_id f now clock r = update_of (get r floor_id) floor_id f now clock r
