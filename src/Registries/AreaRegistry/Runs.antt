-- ===== src/Registries/AreaRegistry/Runs.antt =====
-- Any sequence of calls on the registry of crates/ha-registries/src/area_registry.rs.
use homeassistant_rs.Base.{
  ℕ, ◌≡◌, refl, sym, ap, ◌∙◌, not, ◌&&◌, Option, none, some, List, list_eq, nat_eq, option_eq, ◌==◌,
  ==_iff, arith, Bool-cases, inl, inr, err,
}
use homeassistant_rs.Base.Text.{Text}
use homeassistant_rs.Base.Map
use homeassistant_rs.Base.Map.{Map, lookup-insert, lookup-remove}
use homeassistant_rs.EntityRegistry.Grouping.{
  Groups, found, add_each, discard_each, discard_option, found-add_each, found-discard_each,
  add_option-add_each, discard_option-discard_each,
}
use homeassistant_rs.Registries.Naming.{Unicode, remove_name, normalize_name}
use homeassistant_rs.Registries.Indexing.{IsGrouped, lookup-insert_name, lookup-remove_name}
use homeassistant_rs.Registries.AreaRegistry.{
  AreaEntry, AreaRegistry, new, get, get_of, get_by_name, create, remove, update, update_of,
  reindex, apply, clear_floor_id, clear_label_id, index_entry, unindex_entry, unindex_secondary,
  remove_primary,
}
use homeassistant_rs.Registries.AreaRegistry.Integrity.{
  IsIndexed, new-IsIndexed, floors, labels, name,
}
use homeassistant_rs.Registries.AreaRegistry.Updating.{
  create-IsIndexed, remove-IsIndexed, update-IsIndexed, unindex_secondary-remove_primary,
}
use homeassistant_rs.Registries.AreaRegistry.Clearing.{
  clear_floor_id-IsIndexed, clear_label_id-IsIndexed,
}

-- An entry that is taken out of the index of a field and put back in.
found-twice :
    (field : AreaEntry → List Text) (index : Groups) (i : Text) (e : AreaEntry)
    (entries : Map Text AreaEntry)
    → Map.lookup i entries ≡ some e
    → IsGrouped field index entries
    → (key id : Text)
    → found (add_each i (field e) (discard_each i (field e) index)) key id ≡ found index key id
found-twice field index i e entries there g key id = ground (
  arith,
  found-add_each i (field e) (discard_each i (field e) index) key id,
  found-discard_each i (field e) index key id,
  g key i,
  there,
  ==_iff i id,
)

-- The two registries answer alike.
abbrev pub IsSame : AreaRegistry → AreaRegistry → Type 0
IsSame r s =
    ((id : Text) → get r id ≡ get s id)
    × ((key : Text) → Map.lookup key r.by_name ≡ Map.lookup key s.by_name)
    × ((key id : Text) → found r.by_floor_id key id ≡ found s.by_floor_id key id)
    × ((key id : Text) → found r.by_label_id key id ≡ found s.by_label_id key id)

module _ (unicode : Unicode) where
  -- The registries that calls lead to, where updates do not change ids.
  pub data Reach : AreaRegistry → Type 0 where
    start : Reach (new none)
    by_create :
        (name : Text) (now : Option ℕ) (clock : ℕ) (r : AreaRegistry)
        → Reach r
        → Reach (create unicode name now clock r).1
    by_update :
        (id : Text) (f : AreaEntry → AreaEntry) (now : Option ℕ) (clock : ℕ) (r : AreaRegistry)
        → ((e : AreaEntry) → (f e).id ≡ e.id)
        → Reach r
        → Reach (update unicode id f now clock r).1
    by_remove : (id : Text) (r : AreaRegistry) → Reach r → Reach (remove id r).1
    by_clear_floor_id :
        (clock : ℕ) (floor_id : Text) (r : AreaRegistry)
        → Reach r
        → Reach (clear_floor_id clock floor_id r)
    by_clear_label_id :
        (clock : ℕ) (label_id : Text) (r : AreaRegistry)
        → Reach r
        → Reach (clear_label_id clock label_id r)

  -- Whatever areas are created, updated without a change of their ids, and removed, and whatever
  -- floors and labels are cleared: each area is under its id, its name leads to it and to no
  -- other area, and the indexes of the floors and the labels hold it once for each of its own,
  -- and for no others.
  pub Reach-IsIndexed : (r : AreaRegistry) → Reach r → IsIndexed unicode r
  Reach-IsIndexed _ start = new-IsIndexed unicode
  Reach-IsIndexed _ (by_create name now clock r h) =
      create-IsIndexed unicode name now clock r (Reach-IsIndexed r h)
  Reach-IsIndexed _ (by_update id f now clock r kept h) =
      update-IsIndexed unicode id f now clock r kept (Reach-IsIndexed r h)
  Reach-IsIndexed _ (by_remove id r h) = remove-IsIndexed unicode id r (Reach-IsIndexed r h)
  Reach-IsIndexed _ (by_clear_floor_id clock floor_id r h) =
      clear_floor_id-IsIndexed unicode clock floor_id r (Reach-IsIndexed r h)
  Reach-IsIndexed _ (by_clear_label_id clock label_id r h) =
      clear_label_id-IsIndexed unicode clock label_id r (Reach-IsIndexed r h)

  pub get_by_name-Reach :
      (r : AreaRegistry) (id spelling : Text) (e : AreaEntry)
      → Reach r
      → get r id ≡ some e
      → normalize_name unicode spelling ≡ normalize_name unicode e.name
      → get_by_name unicode r spelling ≡ some e
  unfolding get_by_name get_of
  get_by_name-Reach r id spelling e h there same =
      let i = Reach-IsIndexed r h in
      let key = normalize_name unicode spelling in
      let leads : Map.lookup key r.by_name ≡ some id = ground (
        arith,
        same,
        there,
        i.named key id,
        (i.normal id e there).1,
        ==_iff e.normalized_name (some key),
        ==_iff (Map.lookup key r.by_name) (some id),
      ) in
      ap (get_of r) leads ∙ there

  reindexed_IsSame :
      (e : AreaEntry) (r : AreaRegistry)
      → get r e.id ≡ some e
      → IsIndexed unicode r
      → IsSame (index_entry e (unindex_entry e r)) r
  unfolding get index_entry unindex_entry unindex_secondary remove_primary
  reindexed_IsSame e r there i = (
    λ id. ground (
      arith,
      lookup-insert e.id id e (Map.remove e.id r.by_id),
      lookup-remove e.id id r.by_id,
      there,
      ==_iff e.id id,
    ),
    λ key. ground (
      arith,
      lookup-insert_name e.normalized_name e.id key (remove_name e.normalized_name r.by_name),
      lookup-remove_name e.normalized_name key r.by_name,
      i.named key e.id,
      there,
      ==_iff e.normalized_name (some key),
      ==_iff (Map.lookup key r.by_name) (some e.id),
    ),
    λ key id.
        ap (λ m. found m key id)
          (add_option-add_each e.id e.floor_id (discard_option e.id e.floor_id r.by_floor_id)
            ∙ ap (add_each e.id (floors e))
                (discard_option-discard_each e.id e.floor_id r.by_floor_id))
        ∙ found-twice floors r.by_floor_id e.id e r.by_id there i.on_floor key id,
    found-twice labels r.by_label_id e.id e r.by_id there i.labelled,
  )

  reindex_err :
      (now : Option ℕ) (clock : ℕ) (e old : AreaEntry) (r : AreaRegistry) (message : Text)
      → (reindex unicode now clock e old r).0 ≡ err message
      → (reindex unicode now clock e old r).1 ≡ index_entry old r
  unfolding reindex
  reindex_err now clock e old r message h =
      elim (Bool-cases
        (not (e.name == old.name) && Map.contains_key (normalize_name unicode e.name) r.by_name)) [
          | inl t ↦ ground (arith, t)
          | inr t ↦ ground (arith, t, h)
        ]

  update_of_err :
      (o : Option AreaEntry) (id : Text) (f : AreaEntry → AreaEntry) (now : Option ℕ) (clock : ℕ)
      (r : AreaRegistry) (message : Text)
      → get r id ≡ o
      → IsIndexed unicode r
      → (update_of unicode o id f now clock r).0 ≡ err message
      → IsSame (update_of unicode o id f now clock r).1 r
  unfolding update_of
  update_of_err none id f now clock r message there i h =
      (λ j. refl, λ key. refl, λ key j. refl, λ key j. refl)
  update_of_err (some e) id f now clock r message there i h =
      let place = (i.normal id e there).0 in
      let out =
        ap (λ k. unindex_secondary e (remove_primary k r)) (sym place)
        ∙ unindex_secondary-remove_primary unicode e r in
      rw
        (reindex_err now clock (apply unicode f e) e (unindex_secondary e (remove_primary id r))
            message h
          ∙ ap (index_entry e) out)
        (reindexed_IsSame e r (ap (get r) place ∙ there) i)

  -- In a registry that creations, updates that keep the ids, removals and clearings have made
  -- from a new one, an update of an area that fails, for a name that is in use or an id that is
  -- not there, leaves the same areas, names, floors and labels as before.
  pub update-err :
      (id : Text) (f : AreaEntry → AreaEntry) (now : Option ℕ) (clock : ℕ) (r : AreaRegistry)
      (message : Text)
      → Reach r
      → (update unicode id f now clock r).0 ≡ err message
      → IsSame (update unicode id f now clock r).1 r
  unfolding update
  update-err id f now clock r message h failed =
      update_of_err (get r id) id f now clock r message refl (Reach-IsIndexed r h) failed
