-- ===== src/Registries/LabelRegistry.antt =====
-- crates/ha-registries/src/label_registry.rs, without `sorted_by_name`. No other task works on the
-- registry while a method runs. The outcome of a read or a write of the file is the argument `disk`,
-- and `clock` is `Utc::now`.
pub mod Removing
use homeassistant_rs.Base.{
  ℕ, Bool, not, ◌&&◌, ◌||◌, Option, none, some, List, [], ◌∷◌, ◌++◌, list_eq, nat_eq, option_eq,
  ◌==◌, length, if◌then◌else◌, Result, ok, err, unwrap_or,
}
use homeassistant_rs.Base.Text.{Text, text}
use homeassistant_rs.Base.Map
use homeassistant_rs.Base.Map.{Map}
use homeassistant_rs.Registries.Naming.{
  Unicode, normalize_name, generate_id, insert_name, remove_name, name_in_use,
}

pub record LabelEntry : Type 0 where
  pub id : Text
  pub name : Text
  pub normalized_name : Option Text
  pub icon : Option Text
  pub color : Option Text
  pub description : Option Text
  pub created_at : ℕ
  pub modified_at : ℕ

-- `file` is what the storage file holds.
pub record LabelRegistry : Type 0 where
  pub file : Option (List LabelEntry)
  pub by_id : Map Text LabelEntry
  pub by_name : Map Text Text

unfoldable pub new : Option (List LabelEntry) → LabelRegistry
new file = record { file = file; by_id = []; by_name = [] }

unfoldable pub index_entry : LabelEntry → LabelRegistry → LabelRegistry
unfolding insert_name
index_entry e r = record r {
  by_name = insert_name e.normalized_name e.id r.by_name;
  by_id = Map.insert e.id e r.by_id;
}

unfoldable pub remove_primary : Text → LabelRegistry → LabelRegistry
remove_primary label_id r = record r { by_id = Map.remove label_id r.by_id }

unfoldable pub unindex_secondary : LabelEntry → LabelRegistry → LabelRegistry
unfolding remove_name
unindex_secondary e r = record r { by_name = remove_name e.normalized_name r.by_name }

unfoldable pub unindex_entry : LabelEntry → LabelRegistry → LabelRegistry
unfolding unindex_secondary remove_primary
unindex_entry e r = remove_primary e.id (unindex_secondary e r)

unfoldable pub index_all : List LabelEntry → LabelRegistry → LabelRegistry
unfolding index_entry
index_all [] r = r
index_all (e ∷ es) r = index_all es (index_entry e r)

unfoldable pub load : {E : Type 0} → Option E → LabelRegistry → Result E (Unit {0}) × LabelRegistry
unfolding index_all
load (some e) r = (err e, r)
load none r = (ok tt, index_all (unwrap_or r.file []) r)

unfoldable pub save : {E : Type 0} → Option E → LabelRegistry → Result E (Unit {0}) × LabelRegistry
save (some e) r = (err e, r)
save none r = (ok tt, record r { file = some (Map.values r.by_id) })

unfoldable pub get : LabelRegistry → Text → Option LabelEntry
get r label_id = Map.lookup label_id r.by_id

-- `and_then` of `get_by_name`.
unfoldable pub get_of : LabelRegistry → Option Text → Option LabelEntry
unfolding get
get_of r none = none
get_of r (some label_id) = get r label_id

unfoldable pub remove_of :
    Option LabelEntry → Text → LabelRegistry → Option LabelEntry × LabelRegistry
unfolding unindex_entry remove_primary
remove_of none label_id r = (none, r)
remove_of (some e) label_id r = (some e, unindex_entry e (remove_primary label_id r))

unfoldable pub remove : Text → LabelRegistry → Option LabelEntry × LabelRegistry
unfolding remove_of get
remove label_id r = remove_of (get r label_id) label_id r

unfoldable pub len : LabelRegistry → ℕ
len r = length r.by_id

-- What `update` compares.
unfoldable pub is_changed : LabelEntry → LabelEntry → Bool
is_changed e old =
    not (e.name == old.name)
    || not (e.icon == old.icon)
    || not (e.color == old.color)
    || not (e.description == old.description)

unfoldable pub stamp : Option ℕ → ℕ → LabelEntry → LabelEntry → LabelEntry
unfolding is_changed
stamp now clock e old =
    if is_changed e old then record e { modified_at = unwrap_or now clock } else e

unfoldable pub with_icon : LabelEntry → Text → LabelEntry
with_icon e icon = record e { icon = some icon }

unfoldable pub with_color : LabelEntry → Text → LabelEntry
with_color e color = record e { color = some color }

unfoldable pub with_description : LabelEntry → Text → LabelEntry
with_description e description = record e { description = some description }

module _ (unicode : Unicode) where
  unfoldable pub new_entry : Text → Text → Option ℕ → ℕ → LabelEntry
  unfolding normalize_name
  new_entry id name now clock =
      let at = unwrap_or now clock in
      record {
        id = id;
        name = name;
        normalized_name = some (normalize_name unicode name);
        icon = none;
        color = none;
        description = none;
        created_at = at;
        modified_at = at;
      }

  unfoldable pub get_by_name : LabelRegistry → Text → Option LabelEntry
  unfolding normalize_name get_of
  get_by_name r name = get_of r (Map.lookup (normalize_name unicode name) r.by_name)

  unfoldable pub create :
      Text → Option ℕ → ℕ → LabelRegistry → Result Text LabelEntry × LabelRegistry
  unfolding normalize_name generate_id new_entry index_entry name_in_use
  create name now clock r =
      let normalized = normalize_name unicode name in
      let e = new_entry (generate_id r.by_id unicode name) name now clock in
      if Map.contains_key normalized r.by_name
      then (err (name_in_use name normalized), r)
      else (ok e, index_entry e r)

  unfoldable pub create_with : LabelEntry → LabelRegistry → Result Text LabelEntry × LabelRegistry
  unfolding normalize_name index_entry name_in_use
  create_with e r =
      let normalized = normalize_name unicode e.name in
      if Map.contains_key normalized r.by_name
      then (err (name_in_use e.name normalized), r)
      else (ok e, index_entry e r)

  -- The entry that `update` has after the closure `f`.
  unfoldable pub apply : (LabelEntry → LabelEntry) → LabelEntry → LabelEntry
  unfolding normalize_name
  apply f e = record (f e) { normalized_name = some (normalize_name unicode (f e).name) }

  -- What `update` does with the changed entry `e`, in a registry that `old` has been taken out of.
  unfoldable pub reindex :
      Option ℕ
      → ℕ
      → LabelEntry
      → LabelEntry
      → LabelRegistry
      → Result Text LabelEntry × LabelRegistry
  unfolding normalize_name index_entry name_in_use stamp
  reindex now clock e old r =
      let normalized = normalize_name unicode e.name in
      if not (e.name == old.name) && Map.contains_key normalized r.by_name
      then (err (name_in_use e.name normalized), index_entry old r)
      else (ok (stamp now clock e old), index_entry (stamp now clock e old) r)

  unfoldable pub update_of :
      Option LabelEntry
      → Text
      → (LabelEntry → LabelEntry)
      → Option ℕ
      → ℕ
      → LabelRegistry
      → Result Text LabelEntry × LabelRegistry
  unfolding remove_primary unindex_secondary apply reindex
  update_of none label_id f now clock r = (err (text "Label not found: " ++ label_id), r)
  update_of (some e) label_id f now clock r =
      reindex now clock (apply f e) e (unindex_secondary e (remove_primary label_id r))

  unfoldable pub update :
      Text
      → (LabelEntry → LabelEntry)
      → Option ℕ
      → ℕ
      → LabelRegistry
      → Result Text LabelEntry × LabelRegistry
  unfolding update_of get
  update label_id f now clock r = update_of (get r label_id) label_id f now clock r
