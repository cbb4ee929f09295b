-- ===== src/EntityRegistry/Indexing.antt =====
-- Indexing and unindexing an entity of crates/ha-registries/src/entity_registry.rs keep the indexes
-- right.
use homeassistant_rs.Base.{◌≡◌, none, some, arith, ==_iff, list_eq, nat_eq, option_eq}
use homeassistant_rs.EntityRegistry.Entry.{EntityEntry}
use homeassistant_rs.EntityRegistry.Grouping.{
  add_option-add_each, discard_option-discard_each, add-add_each, discard-discard_each,
}
use homeassistant_rs.Registries.Indexing.{IsGrouped, IsGrouped-insert, IsGrouped-remove}
use homeassistant_rs.EntityRegistry.{
  EntityRegistry, index_entry, unindex_secondary, remove_primary, unindex_entry, get,
}
use homeassistant_rs.EntityRegistry.Indexes.{
  devices, config_entries, areas, labels, platforms, IsIndexed, IsFree, get-index_entry,
  get-unindex_entry, owner-index_entry, owner-unindex_entry,
}

module _ {Json : Type 0} where
  -- The five indexes of fields.
  abbrev AreGrouped : EntityRegistry Json → Type 0
  AreGrouped r =
      IsGrouped devices r.by_device_id r.by_entity_id
      × IsGrouped config_entries r.by_config_entry_id r.by_entity_id
      × IsGrouped areas r.by_area_id r.by_entity_id
      × IsGrouped labels r.by_label_id r.by_entity_id
      × IsGrouped platforms r.by_platform r.by_entity_id

  index_entry-AreGrouped :
      (e : EntityEntry Json) (r : EntityRegistry Json)
      → get r e.entity_id ≡ none
      → IsIndexed r
      → AreGrouped (index_entry e r)
  unfolding index_entry get
  index_entry-AreGrouped e r fresh i =
      let id = e.entity_id in
      let entities = r.by_entity_id in
      (
        rw (add_option-add_each id e.device_id r.by_device_id)
            (IsGrouped-insert devices r.by_device_id id e entities fresh i.by_device),
        rw (add_option-add_each id e.config_entry_id r.by_config_entry_id) (
            IsGrouped-insert config_entries r.by_config_entry_id id e entities fresh
              i.by_config_entry),
        rw (add_option-add_each id e.area_id r.by_area_id)
            (IsGrouped-insert areas r.by_area_id id e entities fresh i.by_area),
        IsGrouped-insert labels r.by_label_id id e entities fresh i.by_label,
        rw (add-add_each id e.platform r.by_platform)
            (IsGrouped-insert platforms r.by_platform id e entities fresh i.by_platforms),
      )

  unindex_entry-AreGrouped :
      (e : EntityEntry Json) (r : EntityRegistry Json)
      → get r e.entity_id ≡ some e
      → IsIndexed r
      → AreGrouped (unindex_entry e r)
  unfolding unindex_entry unindex_secondary remove_primary get
  unindex_entry-AreGrouped e r there i =
      let id = e.entity_id in
      let entities = r.by_entity_id in
      (
        rw (discard_option-discard_each id e.device_id r.by_device_id)
            (IsGrouped-remove devices r.by_device_id id e entities there i.by_device),
        rw (discard_option-discard_each id e.config_entry_id r.by_config_entry_id) (
            IsGrouped-remove config_entries r.by_config_entry_id id e entities there
              i.by_config_entry),
        rw (discard_option-discard_each id e.area_id r.by_area_id)
            (IsGrouped-remove areas r.by_area_id id e entities there i.by_area),
        IsGrouped-remove labels r.by_label_id id e entities there i.by_label,
        rw (discard-discard_each id e.platform r.by_platform)
            (IsGrouped-remove platforms r.by_platform id e entities there i.by_platforms),
      )

  -- Indexing an entity whose id and unique id are free keeps the indexes right.
  pub index_entry-IsIndexed :
      (e : EntityEntry Json) (r : EntityRegistry Json)
      → get r e.entity_id ≡ none
      → IsFree e r
      → IsIndexed r
      → IsIndexed (index_entry e r)
  index_entry-IsIndexed e r fresh free i =
      let (devices, config_entries, areas, labels, platforms) =
        index_entry-AreGrouped e r fresh i in
      record {
        keyed =
            λ id w h. ground (arith, get-index_entry e r id, ==_iff e.entity_id id, i.keyed id w);
        by_device = devices;
        by_config_entry = config_entries;
        by_area = areas;
        by_label = labels;
        by_platforms = platforms;
        owned = λ key id h. ground (
          arith,
          owner-index_entry e r key,
          get-index_entry e r id,
          i.owned key id,
          ==_iff e.entity_id id,
          fresh,
        );
        leads = λ key id h. ground (
          arith,
          owner-index_entry e r key,
          get-index_entry e r id,
          i.leads key id,
          free key,
          ==_iff e.entity_id id,
          fresh,
        );
      }

  -- Unindexing an entity that is there keeps the indexes right.
  pub unindex_entry-IsIndexed :
      (e : EntityEntry Json) (r : EntityRegistry Json)
      → get r e.entity_id ≡ some e
      → IsIndexed r
      → IsIndexed (unindex_entry e r)
  unindex_entry-IsIndexed e r there i =
      let (devices, config_entries, areas, labels, platforms) =
        unindex_entry-AreGrouped e r there i in
      record {
        keyed = λ id w h. ground (arith, get-unindex_entry e r id, i.keyed id w);
        by_device = devices;
        by_config_entry = config_entries;
        by_area = areas;
        by_label = labels;
        by_platforms = platforms;
        owned = λ key id h. ground (
          arith,
          owner-unindex_entry e r key,
          get-unindex_entry e r id,
          i.owned key id,
          ==_iff e.entity_id id,
          there,
        );
        leads = λ key id h. ground (
          arith,
          owner-unindex_entry e r key,
          get-unindex_entry e r id,
          i.leads key id,
          i.leads key e.entity_id,
          ==_iff e.entity_id id,
          there,
        );
      }
