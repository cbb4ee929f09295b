-- ===== src/EntityRegistry/Integrity.antt =====
-- Which operations of crates/ha-registries/src/entity_registry.rs keep the indexes right, and the
-- removed entities under keys that are theirs.
use mathlib.Core.Path.{subst}
use homeassistant_rs.Base.{
  ◌≡◌, refl, sym, ap, ◌∙◌, Option, none, some, List, [], ◌∷◌, ◌++◌, arith, ==_iff, ◌==◌, list_eq,
  nat_eq, option_eq, pair_eq, Bool-cases, inl, inr, unwrap_or,
}
use homeassistant_rs.Base.Text.{Text}
use homeassistant_rs.Base.Map
use homeassistant_rs.Base.Map.{Map, lookup-insert, lookup-remove, remove-remove}
use homeassistant_rs.EntityRegistry.Entry.{EntityEntry}
use homeassistant_rs.EntityRegistry.{
  EntityRegistry, DeletedKey, index_entry, unindex_secondary, remove_primary, unindex_entry, get,
  new,
}
use homeassistant_rs.EntityRegistry.Operations.{
  deleted_key, track_deleted, remove_of, remove, bulk_remove_of, bulk_remove,
}
use homeassistant_rs.EntityRegistry.Indexes.{IsIndexed, IsFree, new-IsIndexed}
use homeassistant_rs.EntityRegistry.Indexing.{index_entry-IsIndexed, unindex_entry-IsIndexed}

module _ {Json : Type 0} where
  -- A removed entity stands under its platform and unique id.
  abbrev pub IsTracked : EntityRegistry Json → Type 0
  IsTracked r =
      (key : DeletedKey) (e : EntityEntry Json)
      → Map.lookup key r.deleted ≡ some e
      → (e.platform ≡ key.1.0) × (unwrap_or e.unique_id [] ≡ key.1.1)

  abbrev pub IsSound : EntityRegistry Json → Type 0
  IsSound r = IsIndexed r × IsTracked r

  pub new-IsSound : IsSound (new none)
  unfolding new Map.lookup
  new-IsSound = (new-IsIndexed, λ key e h. ground arith)

  unindex-twice :
      (e : EntityEntry Json) (r : EntityRegistry Json)
      → unindex_entry e (remove_primary e.entity_id r) ≡ unindex_entry e r
  unfolding unindex_entry unindex_secondary remove_primary
  unindex-twice e r =
      ap (λ m. record (unindex_entry e r) { by_entity_id = m })
        (remove-remove e.entity_id r.by_entity_id)

  pub unindex_secondary-remove_primary :
      (e : EntityEntry Json) (r : EntityRegistry Json)
      → unindex_secondary e.entity_id e (remove_primary e.entity_id r) ≡ unindex_entry e r
  unfolding unindex_entry unindex_secondary remove_primary
  unindex_secondary-remove_primary e r = refl

  track_deleted-IsSound :
      (e : EntityEntry Json) (r : EntityRegistry Json) → IsSound r → IsSound (track_deleted e r)
  unfolding track_deleted deleted_key get
  track_deleted-IsSound e r (i, tracked) = (
    record {
      keyed = i.keyed;
      by_device = i.by_device;
      by_config_entry = i.by_config_entry;
      by_area = i.by_area;
      by_label = i.by_label;
      by_platforms = i.by_platforms;
      owned = i.owned;
      leads = i.leads;
    },
    λ key w h. elim (Bool-cases (deleted_key e == key)) [
      | inl t ↦
          let same : e ≡ w = ground (arith, lookup-insert (deleted_key e) key e r.deleted, t, h) in
          let place : deleted_key e ≡ key = (==_iff (deleted_key e) key).0 t in
          subst
            (λ (x : EntityEntry Json).
              (x.platform ≡ key.1.0) × (unwrap_or x.unique_id [] ≡ key.1.1))
            same (ap (λ (k : DeletedKey). k.1.0) place, ap (λ (k : DeletedKey). k.1.1) place)
      | inr t ↦ tracked key w (ground (arith, lookup-insert (deleted_key e) key e r.deleted, t, h))
    ],
  )

  pub deleted-unindex_entry :
      (e : EntityEntry Json) (r : EntityRegistry Json) → (unindex_entry e r).deleted ≡ r.deleted
  unfolding unindex_entry unindex_secondary remove_primary
  deleted-unindex_entry e r = refl

  pub deleted-index_entry :
      (e : EntityEntry Json) (r : EntityRegistry Json) → (index_entry e r).deleted ≡ r.deleted
  unfolding index_entry
  deleted-index_entry e r = refl

  pub unindex_entry-IsSound :
      (e : EntityEntry Json) (r : EntityRegistry Json)
      → get r e.entity_id ≡ some e
      → IsSound r
      → IsSound (unindex_entry e r)
  unindex_entry-IsSound e r there (i, tracked) = (
    unindex_entry-IsIndexed e r there i,
    λ key w h. tracked key w (sym (ap (Map.lookup key) (deleted-unindex_entry e r)) ∙ h),
  )

  pub index_entry-IsSound :
      (e : EntityEntry Json) (r : EntityRegistry Json)
      → get r e.entity_id ≡ none
      → IsFree e r
      → IsSound r
      → IsSound (index_entry e r)
  index_entry-IsSound e r fresh free (i, tracked) = (
    index_entry-IsIndexed e r fresh free i,
    λ key w h. tracked key w (sym (ap (Map.lookup key) (deleted-index_entry e r)) ∙ h),
  )

  -- What a removal leaves, by `remove` and by `bulk_remove`.
  pub remove_of_lem :
      (e : EntityEntry Json) (id : Text) (r : EntityRegistry Json)
      → e.entity_id ≡ id
      → (remove_of (some e) id r ≡ (some e, track_deleted e (unindex_entry e r)))
        × (bulk_remove_of (some e) id r ≡ (id ∷ [], track_deleted e (unindex_entry e r)))
  unfolding remove_of bulk_remove_of
  remove_of_lem e id r p = rw (sym p) (
    ap (λ s. (some e, track_deleted e s)) (unindex-twice e r),
    ap (λ s. (e.entity_id ∷ [], track_deleted e s)) (unindex_secondary-remove_primary e r),
  )

  remove_of-IsSound :
      (old : Option (EntityEntry Json)) (id : Text) (r : EntityRegistry Json)
      → get r id ≡ old
      → IsSound r
      → IsSound (remove_of old id r).1
  unfolding remove_of
  remove_of-IsSound none id r h s = s
  remove_of-IsSound (some e) id r h s =
      let key : e.entity_id ≡ id = s.0.keyed id e h in
      subst IsSound
        (sym (
          ap (λ (x : Option (EntityEntry Json) × EntityRegistry Json). x.1)
            (remove_of_lem e id r key).0))
        (track_deleted-IsSound e (unindex_entry e r)
          (unindex_entry-IsSound e r (ap (get r) key ∙ h) s))

  -- Removing an entity, or an id that is not registered, keeps the indexes right and the removed
  -- entities under their platforms and unique ids.
  pub remove-IsSound : (id : Text) (r : EntityRegistry Json) → IsSound r → IsSound (remove id r).1
  unfolding remove
  remove-IsSound id r s = remove_of-IsSound (get r id) id r refl s

  abbrev ids_of : Option (EntityEntry Json) → Text → List Text
  ids_of none id = []
  ids_of (some e) id = id ∷ []

  -- Removing one after the other with `remove`; the ids that were there.
  unfoldable pub remove_each : List Text → EntityRegistry Json → List Text × EntityRegistry Json
  unfolding remove
  remove_each [] r = ([], r)
  remove_each (id ∷ ids) r =
      let (old, s) = remove id r in let (rest, t) = remove_each ids s in (ids_of old id ++ rest, t)

  bulk_remove_of-remove_of :
      (old : Option (EntityEntry Json)) (id : Text) (r : EntityRegistry Json)
      → get r id ≡ old
      → IsSound r
      → bulk_remove_of old id r ≡ (ids_of (remove_of old id r).0 id, (remove_of old id r).1)
  unfolding bulk_remove_of remove_of
  bulk_remove_of-remove_of none id r h s = refl
  bulk_remove_of-remove_of (some e) id r h s =
      let (removed, bulk) = remove_of_lem e id r (s.0.keyed id e h) in
      bulk
      ∙ ap (λ (x : Option (EntityEntry Json) × EntityRegistry Json). (id ∷ [], x.1)) (sym removed)

  -- In a registry whose indexes are right and whose removed entities are under their platforms
  -- and unique ids, `bulk_remove` does what `remove` does for each id in turn, and returns the
  -- ids that were there.
  pub bulk_remove-remove_each :
      (ids : List Text) (r : EntityRegistry Json)
      → IsSound r
      → bulk_remove ids r ≡ remove_each ids r
  unfolding bulk_remove remove_each remove
  bulk_remove-remove_each [] r s = refl
  bulk_remove-remove_each (id ∷ ids) r s =
      let first = bulk_remove_of-remove_of (get r id) id r refl s in
      let (old, t) = remove id r in
      ap
        (λ (x : List Text × EntityRegistry Json).
          (x.0 ++ (bulk_remove ids x.1).0, (bulk_remove ids x.1).1))
        first
      ∙ ap (λ (x : List Text × EntityRegistry Json). (ids_of old id ++ x.0, x.1))
          (bulk_remove-remove_each ids t (remove-IsSound id r s))
