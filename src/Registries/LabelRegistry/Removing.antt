-- ===== src/Registries/LabelRegistry/Removing.antt =====
-- Removing a label that was just created, in crates/ha-registries/src/label_registry.rs.
use mathlib.Core.Path.{subst}
use homeassistant_rs.Base.{
  ℕ, ◌≡◌, refl, sym, ap, ◌∙◌, Option, none, some, list_eq, nat_eq, option_eq, ==_iff, arith,
  Bool-cases, inl, inr, ok,
}
use homeassistant_rs.Base.Text.{Text}
use homeassistant_rs.Base.Map
use homeassistant_rs.Base.Map.{Map, lookup-insert, lookup-remove}
use homeassistant_rs.Registries.Naming.{Unicode, normalize_name, generate_id, insert_name}
use homeassistant_rs.Registries.Fresh.{generate_id_lem}
use homeassistant_rs.Registries.Indexing.{lookup-insert_name, lookup-remove_name}
use homeassistant_rs.Registries.LabelRegistry.{
  LabelEntry, LabelRegistry, get, get_of, get_by_name, new_entry, create, index_entry, remove_of,
  remove, unindex_entry, unindex_secondary, remove_primary,
}

-- The two registries answer alike.
abbrev pub IsSame : LabelRegistry → LabelRegistry → Type 0
IsSame r s =
    ((id : Text) → get r id ≡ get s id)
    × ((key : Text) → Map.lookup key r.by_name ≡ Map.lookup key s.by_name)

module _ (unicode : Unicode) where
  -- An entry whose id and name are free, indexed and taken out again.
  indexed_and_removed :
      (e : LabelEntry) (r : LabelRegistry)
      → get r e.id ≡ none
      → e.normalized_name ≡ some (normalize_name unicode e.name)
      → Map.lookup (normalize_name unicode e.name) r.by_name ≡ none
      → (get_by_name unicode (index_entry e r) e.name ≡ some e)
        × ((remove e.id (index_entry e r)).0 ≡ some e)
        × IsSame (remove e.id (index_entry e r)).1 r
  unfolding get_by_name get_of get index_entry remove remove_of unindex_entry unindex_secondary
      remove_primary
  indexed_and_removed e r fresh normal free =
      let key = normalize_name unicode e.name in
      let there : get (index_entry e r) e.id ≡ some e =
        ground (arith, lookup-insert e.id e.id e r.by_id, ==_iff e.id e.id) in
      let named : Map.lookup key (index_entry e r).by_name ≡ some e.id = ground (
        arith,
        normal,
        lookup-insert_name e.normalized_name e.id key r.by_name,
        ==_iff e.normalized_name (some key),
      ) in
      (
        ap (get_of (index_entry e r)) named ∙ there,
        ap (λ o. (remove_of o e.id (index_entry e r)).0) there,
        (
          λ id.
              ap (λ o. get (remove_of o e.id (index_entry e r)).1 id) there
              ∙ ground (
                arith,
                lookup-remove e.id id (Map.remove e.id (Map.insert e.id e r.by_id)),
                lookup-remove e.id id (Map.insert e.id e r.by_id),
                lookup-insert e.id id e r.by_id,
                fresh,
                ==_iff e.id id,
              ),
          λ k.
              ap (λ o. Map.lookup k (remove_of o e.id (index_entry e r)).1.by_name) there
              ∙ ground (
                arith,
                lookup-remove_name e.normalized_name k
                    (insert_name e.normalized_name e.id r.by_name),
                lookup-insert_name e.normalized_name e.id k r.by_name,
                normal,
                free,
                ==_iff e.normalized_name (some k),
              ),
        ),
      )

  create_made :
      (name : Text) (now : Option ℕ) (clock : ℕ) (r : LabelRegistry) (e : LabelEntry)
      → (create unicode name now clock r).0 ≡ ok e
      → ((create unicode name now clock r).1
          ≡ index_entry (new_entry unicode (generate_id r.by_id unicode name) name now clock) r)
        × (new_entry unicode (generate_id r.by_id unicode name) name now clock ≡ e)
        × (Map.lookup (normalize_name unicode name) r.by_name ≡ none)
  unfolding create
  create_made name now clock r e made =
      elim (Bool-cases (Map.contains_key (normalize_name unicode name) r.by_name)) [
        | inl t ↦ ground (arith, t, made)
        | inr t ↦ (ground (arith, t), ground (arith, t, made), ground (arith, t))
      ]

  -- A label that was created is found by its name and can be removed, and after that the registry
  -- has the labels and the names that it had before.
  pub remove-create :
      (name : Text) (now : Option ℕ) (clock : ℕ) (r : LabelRegistry) (e : LabelEntry)
      → (create unicode name now clock r).0 ≡ ok e
      → (get_by_name unicode (create unicode name now clock r).1 name ≡ some e)
        × ((remove e.id (create unicode name now clock r).1).0 ≡ some e)
        × IsSame (remove e.id (create unicode name now clock r).1).1 r
  unfolding new_entry get
  remove-create name now clock r e made =
      let n = new_entry unicode (generate_id r.by_id unicode name) name now clock in
      let (same, is_new, free) = create_made name now clock r e made in
      let facts = indexed_and_removed n r (generate_id_lem unicode name r.by_id) refl free in
      subst
        (λ (x : LabelEntry).
          (get_by_name unicode (create unicode name now clock r).1 name ≡ some x)
          × ((remove x.id (create unicode name now clock r).1).0 ≡ some x)
          × IsSame (remove x.id (create unicode name now clock r).1).1 r)
        is_new
        (subst
          (λ (s : LabelRegistry).
            (get_by_name unicode s name ≡ some n)
            × ((remove n.id s).0 ≡ some n)
            × IsSame (remove n.id s).1 r)
          (sym same) facts)
