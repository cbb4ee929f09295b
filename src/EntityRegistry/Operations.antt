-- ===== src/EntityRegistry/Operations.antt =====
-- crates/ha-registries/src/entity_registry.rs: loading and saving, and the operations that change
-- and remove entities. The error of a read is the argument `disk`.
use homeassistant_rs.Base.{
  Option, none, some, List, [], ◌∷◌, ◌++◌, list_eq, nat_eq, pair_eq, Result, ok, err, unwrap_or,
}
use homeassistant_rs.Base.Text.{Text}
use homeassistant_rs.Base.Map
use homeassistant_rs.Base.Map.{Map}
use homeassistant_rs.EntityRegistry.Entry.{EntityEntry, domain}
use homeassistant_rs.EntityRegistry.{
  EntityRegistry, DeletedKey, index_entry, unindex_secondary, remove_primary, unindex_entry, get,
}

pub data EntityRegistryError : Type 0 where
  not_found : Text → EntityRegistryError

module _ {Json : Type 0} where
  unfoldable pub deleted_key : EntityEntry Json → DeletedKey
  unfolding domain
  deleted_key e = (domain e, (e.platform, unwrap_or e.unique_id []))

  unfoldable pub track_deleted : EntityEntry Json → EntityRegistry Json → EntityRegistry Json
  unfolding deleted_key
  track_deleted e r = record r { deleted = Map.insert (deleted_key e) e r.deleted }

  -- The two loops of `load`.
  unfoldable pub index_all : List (EntityEntry Json) → EntityRegistry Json → EntityRegistry Json
  unfolding index_entry
  index_all [] r = r
  index_all (e ∷ es) r = index_all es (index_entry e r)

  unfoldable pub track_all : List (EntityEntry Json) → EntityRegistry Json → EntityRegistry Json
  unfolding track_deleted
  track_all [] r = r
  track_all (e ∷ es) r = track_all es (track_deleted e r)

  unfoldable pub load :
      {E : Type 0} → Option E → EntityRegistry Json → Result E (Unit {0}) × EntityRegistry Json
  unfolding index_all track_all
  load (some e) r = (err e, r)
  load none r = (
    ok tt,
    elim r.file [
      | none ↦ r
      | some stored ↦ track_all stored.deleted_entities (index_all stored.entities r)
    ],
  )

  unfoldable pub save :
      {E : Type 0} → Option E → EntityRegistry Json → Result E (Unit {0}) × EntityRegistry Json
  save (some e) r = (err e, r)
  save none r = (
    ok tt,
    record r {
      file = some (record {
        entities = Map.values r.by_entity_id;
        deleted_entities = Map.values r.deleted;
      });
    },
  )

  unfoldable pub update_of :
      Option (EntityEntry Json)
      → Text
      → (EntityEntry Json → EntityEntry Json)
      → EntityRegistry Json
      → Result EntityRegistryError (EntityEntry Json) × EntityRegistry Json
  unfolding remove_primary unindex_secondary index_entry
  update_of none entity_id f r = (err (not_found entity_id), r)
  update_of (some e) entity_id f r =
      (ok (f e), index_entry (f e) (unindex_secondary e.entity_id e (remove_primary entity_id r)))

  -- `f` is the closure that changes the entry.
  unfoldable pub update :
      Text
      → (EntityEntry Json → EntityEntry Json)
      → EntityRegistry Json
      → Result EntityRegistryError (EntityEntry Json) × EntityRegistry Json
  unfolding update_of get
  update entity_id f r = update_of (get r entity_id) entity_id f r

  unfoldable pub remove_of :
      Option (EntityEntry Json)
      → Text
      → EntityRegistry Json
      → Option (EntityEntry Json) × EntityRegistry Json
  unfolding remove_primary unindex_entry track_deleted
  remove_of none entity_id r = (none, r)
  remove_of (some e) entity_id r =
      (some e, track_deleted e (unindex_entry e (remove_primary entity_id r)))

  unfoldable pub remove :
      Text → EntityRegistry Json → Option (EntityEntry Json) × EntityRegistry Json
  unfolding remove_of get
  remove entity_id r = remove_of (get r entity_id) entity_id r

  -- One round of the loop of `bulk_remove`.
  unfoldable pub bulk_remove_of :
      Option (EntityEntry Json) → Text → EntityRegistry Json → List Text × EntityRegistry Json
  unfolding remove_primary unindex_secondary track_deleted
  bulk_remove_of none entity_id r = ([], r)
  bulk_remove_of (some e) entity_id r =
      (entity_id ∷ [], track_deleted e (unindex_secondary entity_id e (remove_primary entity_id r)))

  unfoldable pub bulk_remove : List Text → EntityRegistry Json → List Text × EntityRegistry Json
  unfolding bulk_remove_of get
  bulk_remove [] r = ([], r)
  bulk_remove (entity_id ∷ entity_ids) r =
      let (removed, s) = bulk_remove_of (get r entity_id) entity_id r in
      let (rest, t) = bulk_remove entity_ids s in (removed ++ rest, t)
