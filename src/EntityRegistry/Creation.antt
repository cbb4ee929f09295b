-- ===== src/EntityRegistry/Creation.antt =====
-- crates/ha-registries/src/entity_registry.rs: `get_or_create` and its branches.
use homeassistant_rs.Base.{
  ◌&&◌, not, Option, none, some, list_eq, nat_eq, pair_eq, if◌then◌else◌, is_some,
}
use homeassistant_rs.Base.Text.{Text}
use homeassistant_rs.Base.Map
use homeassistant_rs.Base.Map.{Map}
use homeassistant_rs.Core.State.{Time}
use homeassistant_rs.EntityRegistry.Entry
use homeassistant_rs.EntityRegistry.Entry.{EntityEntry, first_part, domain}
use homeassistant_rs.EntityRegistry.{
  EntityRegistry, DeletedKey, index_entry, get, get_by_platform_unique_id,
}
use homeassistant_rs.EntityRegistry.Operations.{update_of}

module _ {Json : Type 0} where
  -- `existing.unique_id.is_none() && unique_id.is_some()`, and the update that follows, which finds
  -- `existing` again under its id.
  unfoldable pub adopt :
      Time
      → Option Text
      → EntityEntry Json
      → Text
      → EntityRegistry Json
      → EntityEntry Json × EntityRegistry Json
  unfolding update_of
  adopt now unique_id existing entity_id r =
      if not (is_some existing.unique_id) && is_some unique_id
      then (let changed = record existing { unique_id = unique_id; modified_at = now } in
          (changed, (update_of (some existing) entity_id (λ _. changed) r).1))
      else (existing, r)

  unfoldable pub create :
      Text
      → Time
      → Text
      → Text
      → Option Text
      → Option Text
      → Option Text
      → EntityRegistry Json
      → EntityEntry Json × EntityRegistry Json
  unfolding Entry.new index_entry
  create uuid now platform entity_id unique_id config_entry_id device_id r =
      let e = record (Entry.new uuid now entity_id platform unique_id) {
        config_entry_id = config_entry_id;
        device_id = device_id;
      } in
      (e, index_entry e r)

  unfoldable pub restore :
      Time
      → Text
      → DeletedKey
      → EntityEntry Json
      → EntityRegistry Json
      → EntityEntry Json × EntityRegistry Json
  unfolding index_entry
  restore now entity_id key e r =
      let restored = record e { entity_id = entity_id; modified_at = now } in
      (restored, index_entry restored (record r { deleted = Map.remove key r.deleted }))

  abbrev pub with_key :
      DeletedKey → Option (EntityEntry Json) → Option (DeletedKey × EntityEntry Json)
  with_key key none = none
  with_key key (some e) = some (key, e)

  -- The deleted entity that `get_or_create` looks for, with its key.
  unfoldable pub find_deleted :
      Text → Text → Option Text → EntityRegistry Json → Option (DeletedKey × EntityEntry Json)
  unfolding first_part
  find_deleted platform entity_id none r = none
  find_deleted platform entity_id (some unique_id) r =
      let key : DeletedKey = (first_part entity_id, (platform, unique_id)) in
      with_key key (Map.lookup key r.deleted)

  unfoldable pub find_existing :
      Text → Option Text → EntityRegistry Json → Option (EntityEntry Json)
  unfolding get_by_platform_unique_id
  find_existing platform none r = none
  find_existing platform (some unique_id) r = get_by_platform_unique_id r platform unique_id

  -- The three checks of `get_or_create`, the last one first: for a deleted entity, for the entity id,
  -- and for the unique id.
  unfoldable pub restore_or_create :
      Option (DeletedKey × EntityEntry Json)
      → Text
      → Time
      → Text
      → Text
      → Option Text
      → Option Text
      → Option Text
      → EntityRegistry Json
      → EntityEntry Json × EntityRegistry Json
  unfolding restore create
  restore_or_create (some (key, e)) uuid now platform entity_id unique_id config_entry_id device_id
        r =
      restore now entity_id key e r
  restore_or_create none uuid now platform entity_id unique_id config_entry_id device_id r =
      create uuid now platform entity_id unique_id config_entry_id device_id r

  unfoldable pub adopt_or_create :
      Option (EntityEntry Json)
      → Text
      → Time
      → Text
      → Text
      → Option Text
      → Option Text
      → Option Text
      → EntityRegistry Json
      → EntityEntry Json × EntityRegistry Json
  unfolding adopt find_deleted restore_or_create
  adopt_or_create (some existing) uuid now platform entity_id unique_id config_entry_id device_id
        r =
      adopt now unique_id existing entity_id r
  adopt_or_create none uuid now platform entity_id unique_id config_entry_id device_id r =
      restore_or_create (find_deleted platform entity_id unique_id r) uuid now platform entity_id
        unique_id config_entry_id device_id r

  unfoldable pub find_or_create :
      Option (EntityEntry Json)
      → Text
      → Time
      → Text
      → Text
      → Option Text
      → Option Text
      → Option Text
      → EntityRegistry Json
      → EntityEntry Json × EntityRegistry Json
  unfolding get adopt_or_create
  find_or_create (some existing) uuid now platform entity_id unique_id config_entry_id device_id r =
      (existing, r)
  find_or_create none uuid now platform entity_id unique_id config_entry_id device_id r =
      adopt_or_create (get r entity_id) uuid now platform entity_id unique_id config_entry_id
        device_id r

  unfoldable pub get_or_create :
      Text
      → Time
      → Text
      → Text
      → Option Text
      → Option Text
      → Option Text
      → EntityRegistry Json
      → EntityEntry Json × EntityRegistry Json
  unfolding find_existing find_or_create
  get_or_create uuid now platform entity_id unique_id config_entry_id device_id r =
      find_or_create (find_existing platform unique_id r) uuid now platform entity_id unique_id
        config_entry_id device_id r
