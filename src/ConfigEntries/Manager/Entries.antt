-- ===== src/ConfigEntries/Manager/Entries.antt =====
-- manager.rs: loading and saving, and adding, updating and removing entries. A field that serde
-- skips is not in the file and has its default when it is read.
use homeassistant_rs.Base.{
  Bool, false, Option, none, some, List, [], ◌∷◌, list_eq, nat_eq, Result, ok, err, map,
  if◌then◌else◌, is_some,
}
use homeassistant_rs.Base.Text.{Text}
use homeassistant_rs.Base.Map
use homeassistant_rs.Core.State.{Time}
use homeassistant_rs.ConfigEntries.Lifecycle.{not_loaded}
use homeassistant_rs.ConfigEntries.Entry.{ConfigEntry, ConfigEntryUpdate, apply_update}
use homeassistant_rs.ConfigEntries.Manager.{
  StorageError, not_found, already_exists, storage, ConfigEntries, Action, ◌>>◌, pure, index_entry,
  unindex_entry, get, get_by_unique_id,
}

abbrev or_empty : Option Text → Text
or_empty none = []
or_empty (some t) = t

module _ {Json : Type 0} where
  unfoldable pub persisted : ConfigEntry Json → ConfigEntry Json
  persisted e = record e {
    state = not_loaded;
    reason = none;
    error_reason_translation_key = none;
    tries = 0;
  }

module _ {Json Ctx : Type 0} where
  unfoldable pub index_all :
      List (ConfigEntry Json) → ConfigEntries Json Ctx → ConfigEntries Json Ctx
  unfolding index_entry
  index_all [] s = s
  index_all (e ∷ es) s = index_all es (index_entry e s)

  -- `disk` is the error of the read, if there is one; there may be no file.
  unfoldable pub load :
      Option StorageError
      → ConfigEntries Json Ctx
      → Result StorageError (Unit {0}) × ConfigEntries Json Ctx
  unfolding index_all
  load (some e) s = (err e, s)
  load none s = (ok tt, elim s.file [ none ↦ s | some es ↦ index_all es s ])

  -- A write that fails leaves the file as it was: it goes to another file first.
  unfoldable pub save : Option StorageError → Action (ConfigEntries Json Ctx) (Unit {0})
  unfolding persisted
  save (some e) s = (err (storage e), s)
  save none s = (ok tt, record s { file = some (map persisted (Map.values s.entries)) })

  unfoldable pub is_duplicate : ConfigEntries Json Ctx → Text → Option Text → Bool
  unfolding get_by_unique_id
  is_duplicate s domain none = false
  is_duplicate s domain (some unique_id) = is_some (get_by_unique_id s domain unique_id)

  -- The text of the unique id is read only where there is one.
  unfoldable pub add :
      Option StorageError → ConfigEntry Json → Action (ConfigEntries Json Ctx) (ConfigEntry Json)
  unfolding is_duplicate index_entry save
  add disk e s =
      if is_duplicate s e.domain e.unique_id
      then (err (already_exists e.domain (or_empty e.unique_id)), s)
      else (do save disk; pure e) (index_entry e s)

  unfoldable pub update_of :
      Option (ConfigEntry Json)
      → Option StorageError
      → Time
      → Text
      → ConfigEntryUpdate Json
      → Action (ConfigEntries Json Ctx) (ConfigEntry Json)
  unfolding unindex_entry apply_update index_entry save
  update_of none disk now entry_id changes s = (err (not_found entry_id), s)
  update_of (some e) disk now entry_id changes s =
      let updated = apply_update changes e now in
      (do save disk; pure updated) (index_entry updated (unindex_entry e s))

  unfoldable pub update :
      Option StorageError
      → Time
      → Text
      → ConfigEntryUpdate Json
      → Action (ConfigEntries Json Ctx) (ConfigEntry Json)
  unfolding update_of get
  update disk now entry_id changes s = update_of (get s entry_id) disk now entry_id changes s

  unfoldable pub remove_of :
      Option (ConfigEntry Json)
      → Option StorageError
      → Text
      → Action (ConfigEntries Json Ctx) (ConfigEntry Json)
  unfolding unindex_entry save
  remove_of none disk entry_id s = (err (not_found entry_id), s)
  remove_of (some e) disk entry_id s = (do save disk; pure e) (unindex_entry e s)

  unfoldable pub remove :
      Option StorageError → Text → Action (ConfigEntries Json Ctx) (ConfigEntry Json)
  unfolding remove_of get
  remove disk entry_id s = remove_of (get s entry_id) disk entry_id s
