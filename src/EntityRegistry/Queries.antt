-- ===== src/EntityRegistry/Queries.antt =====
-- The queries of crates/ha-registries/src/entity_registry.rs by the value of a field.
use mathlib.Core.List.{Memᴰ}
use homeassistant_rs.Base.{
  ◌≡◌, ap, ◌∙◌, ◌↔◌, true, Option, none, some, List, arith, ==_iff, list_eq, nat_eq, filter_map-mem,
  mem-filter_map,
}
use homeassistant_rs.Base.Text.{Text}
use homeassistant_rs.Base.IdSet
use homeassistant_rs.EntityRegistry.Entry.{EntityEntry}
use homeassistant_rs.EntityRegistry.Grouping.{Groups, ids, to_list}
use homeassistant_rs.EntityRegistry.{
  EntityRegistry, get, get_group, get_by_device_id, get_by_config_entry_id, get_by_area_id,
  get_by_label_id, get_by_platform,
}
use homeassistant_rs.Registries.Indexing.{IsGrouped}
use homeassistant_rs.EntityRegistry.Indexes.{
  IsIndexed, devices, config_entries, areas, labels, platforms,
}

contains-to_list :
    (k : Text) (o : Option Text) → (IdSet.contains k (to_list o) ≡ true) ↔ (o ≡ some k)
unfolding IdSet.contains
contains-to_list k none = (λ h. ground arith, λ h. ground arith)
contains-to_list k (some d) = (λ h. ground (arith, ==_iff d k), λ h. ground (arith, ==_iff d k))

module _ {Json : Type 0} where
  -- The entity is registered.
  abbrev pub IsThere : EntityRegistry Json → EntityEntry Json → Type 0
  IsThere r e = get r e.entity_id ≡ some e

  get_group-mem_iff :
      (field : EntityEntry Json → List Text) (index : Groups) (r : EntityRegistry Json) (k : Text)
      (e : EntityEntry Json)
      → IsIndexed r
      → IsGrouped field index r.by_entity_id
      → Memᴰ e (get_group r index k) ↔ ((IdSet.contains k (field e) ≡ true) × IsThere r e)
  unfolding get_group get
  get_group-mem_iff field index r k e i g = (
    λ m.
        let (id, p, n) = mem-filter_map (get r) e (ids index k) m in
        (ground (arith, g k id, p), ap (get r) (i.keyed id e p) ∙ p),
    λ h.
        filter_map-mem (get r) e e.entity_id (ids index k) h.1
          (ground (arith, g k e.entity_id, h.0, h.1)),
  )

  by_option :
      (k : Text) (o : Option Text) (r : EntityRegistry Json) (e : EntityEntry Json)
      (es : List (EntityEntry Json))
      → (Memᴰ e es ↔ ((IdSet.contains k (to_list o) ≡ true) × IsThere r e))
      → Memᴰ e es ↔ ((o ≡ some k) × IsThere r e)
  by_option k o r e es f = (
    λ m. let (c, there) = f.0 m in ((contains-to_list k o).0 c, there),
    λ (h, there). f.1 ((contains-to_list k o).1 h, there),
  )

  -- With the indexes right, the entities of a device, a config entry, an area, a label or a platform
  -- are the registered ones whose field has that value.
  pub queries_lem :
      (r : EntityRegistry Json) (k : Text) (e : EntityEntry Json)
      → IsIndexed r
      → (Memᴰ e (get_by_device_id r k) ↔ ((e.device_id ≡ some k) × IsThere r e))
        × (Memᴰ e (get_by_config_entry_id r k) ↔ ((e.config_entry_id ≡ some k) × IsThere r e))
        × (Memᴰ e (get_by_area_id r k) ↔ ((e.area_id ≡ some k) × IsThere r e))
        × (Memᴰ e (get_by_label_id r k) ↔ ((IdSet.contains k e.labels ≡ true) × IsThere r e))
        × (Memᴰ e (get_by_platform r k) ↔ ((e.platform ≡ k) × IsThere r e))
  unfolding get_by_device_id get_by_config_entry_id get_by_area_id get_by_label_id get_by_platform
      IdSet.contains
  queries_lem r k e i = (
    by_option k e.device_id r e (get_by_device_id r k)
        (get_group-mem_iff devices r.by_device_id r k e i i.by_device),
    by_option k e.config_entry_id r e (get_by_config_entry_id r k)
        (get_group-mem_iff config_entries r.by_config_entry_id r k e i i.by_config_entry),
    by_option k e.area_id r e (get_by_area_id r k)
        (get_group-mem_iff areas r.by_area_id r k e i i.by_area),
    get_group-mem_iff labels r.by_label_id r k e i i.by_label,
    let f = get_group-mem_iff platforms r.by_platform r k e i i.by_platforms in
        (
          λ m. let (c, there) = f.0 m in (ground (arith, c, ==_iff e.platform k), there),
          λ (h, there). f.1 (ground (arith, h, ==_iff e.platform k), there),
        ),
  )
