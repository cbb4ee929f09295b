-- ===== src/Registries/AreaRegistry/Integrity.antt =====
-- The indexes of crates/ha-registries/src/area_registry.rs stay right, whatever is done.
use mathlib.Core.Path.{subst}
use homeassistant_rs.Base.{
  ◌≡◌, refl, Option, none, some, List, list_eq, nat_eq, option_eq, ◌==◌, ==_iff, arith, Bool-cases,
  inl, inr,
}
use homeassistant_rs.Base.Text.{Text}
use homeassistant_rs.Base.Map
use homeassistant_rs.Base.Map.{
  Map, lookup-insert, lookup-remove, lookup-modify, map_option, remove-remove,
}
use homeassistant_rs.Base.IdSet
use homeassistant_rs.Base.IdSet.{contains-count}
use homeassistant_rs.EntityRegistry.Grouping.{
  to_list, add_option-add_each, discard_option-discard_each, ids,
}
use homeassistant_rs.Registries.Naming.{Unicode, normalize_name}
use homeassistant_rs.Registries.Indexing.{
  IsGrouped, IsNamed, IsGrouped-insert, IsGrouped-remove, IsNamed-insert, IsNamed-remove,
}
use homeassistant_rs.Registries.AreaRegistry.{
  AreaEntry, AreaRegistry, new, index_entry, remove_primary, unindex_secondary, unindex_entry, get,
}

abbrev pub floors : AreaEntry → List Text
floors e = to_list e.floor_id

abbrev pub labels : AreaEntry → List Text
labels e = e.labels

abbrev pub name : AreaEntry → Option Text
name e = e.normalized_name

module _ (unicode : Unicode) where
  -- What each entry of the registry is: under its id, and with its name normalized.
  abbrev pub IsNormal : Text → AreaEntry → Type 0
  IsNormal id e = (e.id ≡ id) × (e.normalized_name ≡ some (normalize_name unicode e.name))

  pub record IsIndexed (r : AreaRegistry) : Type 0 where
    pub normal : (id : Text) (e : AreaEntry) → get r id ≡ some e → IsNormal id e
    pub named : IsNamed name r.by_name r.by_id
    pub on_floor : IsGrouped floors r.by_floor_id r.by_id
    pub labelled : IsGrouped labels r.by_label_id r.by_id

  pub new-IsIndexed : IsIndexed (new none)
  unfolding new get Map.lookup ids IdSet.count
  new-IsIndexed = record {
    normal = λ id e h. ground arith;
    named = λ key id. refl;
    on_floor = λ key id. refl;
    labelled = λ key id. refl;
  }

  pub index_entry-IsIndexed :
      (e : AreaEntry) (r : AreaRegistry)
      → IsNormal e.id e
      → get r e.id ≡ none
      → Map.lookup (normalize_name unicode e.name) r.by_name ≡ none
      → IsIndexed r
      → IsIndexed (index_entry e r)
  unfolding index_entry get
  index_entry-IsIndexed e r normal fresh free i = record {
    normal = λ id w h. elim (Bool-cases (e.id == id)) [
      | inl t ↦
          let same : e ≡ w = ground (arith, lookup-insert e.id id e r.by_id, t, h) in
          subst (IsNormal id) same ((==_iff e.id id).0 t, normal.1)
      | inr t ↦ i.normal id w (ground (arith, lookup-insert e.id id e r.by_id, t, h))
    ];
    named =
        IsNamed-insert name r.by_name e.id e r.by_id fresh
          (λ key h. ground (arith, normal.1, h, free)) i.named;
    on_floor =
        rw (add_option-add_each e.id e.floor_id r.by_floor_id)
          (IsGrouped-insert floors r.by_floor_id e.id e r.by_id fresh i.on_floor);
    labelled = IsGrouped-insert labels r.by_label_id e.id e r.by_id fresh i.labelled;
  }

  pub unindex_entry-IsIndexed :
      (e : AreaEntry) (r : AreaRegistry)
      → get r e.id ≡ some e
      → IsIndexed r
      → IsIndexed (unindex_entry e r)
  unfolding unindex_entry unindex_secondary remove_primary get
  unindex_entry-IsIndexed e r there i = record {
    normal = λ id w h. i.normal id w (ground (arith, lookup-remove e.id id r.by_id));
    named = IsNamed-remove name r.by_name e.id e r.by_id there i.named;
    on_floor =
        rw (discard_option-discard_each e.id e.floor_id r.by_floor_id)
          (IsGrouped-remove floors r.by_floor_id e.id e r.by_id there i.on_floor);
    labelled = IsGrouped-remove labels r.by_label_id e.id e r.by_id there i.labelled;
  }
