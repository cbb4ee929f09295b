-- ===== src/Registries/AreaRegistry/Updating.antt =====
-- Creating, updating and removing in crates/ha-registries/src/area_registry.rs keep the indexes right.
use homeassistant_rs.Base.{
  ℕ, ◌≡◌, refl, sym, ap, ◌∙◌, Bool, true, false, not, ◌&&◌, Option, none, some, list_eq, nat_eq,
  option_eq, ◌==◌, ==_iff, arith, if◌then◌else◌, Bool-cases, inl, inr, ◌⊎◌,
}
use homeassistant_rs.Base.Text.{Text}
use homeassistant_rs.Base.Map
use homeassistant_rs.Base.Map.{Map, lookup-insert, lookup-remove, remove-remove}
use homeassistant_rs.Registries.Naming.{Unicode, normalize_name, generate_id}
use homeassistant_rs.Registries.Fresh.{generate_id_lem}
use homeassistant_rs.Registries.Indexing.{lookup-remove_name}
use homeassistant_rs.Registries.AreaRegistry.{
  AreaEntry, AreaRegistry, index_entry, remove_primary, unindex_secondary, unindex_entry, get,
  remove_of, remove, new_entry, create, apply, stamp, reindex, is_changed, update_of, update,
}
use homeassistant_rs.Registries.AreaRegistry.Integrity.{
  IsNormal, IsIndexed, index_entry-IsIndexed, unindex_entry-IsIndexed,
}

if_both : {A : Type 0} (P : A → Type 0) (b : Bool) (x y : A) → P x → P y → P (if b then x else y)
if_both P true x y px py = px
if_both P false x y px py = py

module _ (unicode : Unicode) where
  create_cases :
      (name : Text) (now : Option ℕ) (clock : ℕ) (r : AreaRegistry)
      → let e = new_entry unicode (generate_id r.by_id unicode name) name now clock in
        ((create unicode name now clock r).1 ≡ r)
        ⊎ ((Map.lookup (normalize_name unicode name) r.by_name ≡ none)
            × ((create unicode name now clock r).1 ≡ index_entry e r))
  unfolding create
  create_cases name now clock r =
      elim (Bool-cases (Map.contains_key (normalize_name unicode name) r.by_name)) [
        | inl t ↦ inl (ground (arith, t))
        | inr t ↦ inr (ground (arith, t), ground (arith, t))
      ]

  pub create-IsIndexed :
      (name : Text) (now : Option ℕ) (clock : ℕ) (r : AreaRegistry)
      → IsIndexed unicode r
      → IsIndexed unicode (create unicode name now clock r).1
  unfolding get new_entry
  create-IsIndexed name now clock r i = elim (create_cases name now clock r) [
    | inl same ↦ rw same i
    | inr (free, same) ↦ rw same (
        index_entry-IsIndexed unicode
          (new_entry unicode (generate_id r.by_id unicode name) name now clock) r (refl, refl)
          (generate_id_lem unicode name r.by_id) free i)
  ]

  unindex-twice :
      (e : AreaEntry) (r : AreaRegistry)
      → unindex_entry e (remove_primary e.id r) ≡ unindex_entry e r
  unfolding unindex_entry unindex_secondary remove_primary
  unindex-twice e r =
      ap (λ m. record (unindex_entry e r) { by_id = m }) (remove-remove e.id r.by_id)

  pub unindex_secondary-remove_primary :
      (e : AreaEntry) (r : AreaRegistry)
      → unindex_secondary e (remove_primary e.id r) ≡ unindex_entry e r
  unfolding unindex_entry unindex_secondary remove_primary
  unindex_secondary-remove_primary e r = refl

  remove_of-IsIndexed :
      (o : Option AreaEntry) (id : Text) (r : AreaRegistry)
      → get r id ≡ o
      → IsIndexed unicode r
      → IsIndexed unicode (remove_of o id r).1
  unfolding remove_of
  remove_of-IsIndexed none id r there i = i
  remove_of-IsIndexed (some e) id r there i =
      let place = (i.normal id e there).0 in
      rw (ap (λ k. unindex_entry e (remove_primary k r)) (sym place) ∙ unindex-twice e r)
        (unindex_entry-IsIndexed unicode e r (ap (get r) place ∙ there) i)

  pub remove-IsIndexed :
      (id : Text) (r : AreaRegistry) → IsIndexed unicode r → IsIndexed unicode (remove id r).1
  unfolding remove
  remove-IsIndexed id r i = remove_of-IsIndexed (get r id) id r refl i

  -- The entry that is put in is under the id of the old one, with its name normalized.
  stamped_IsNormal :
      (f : AreaEntry → AreaEntry) (now : Option ℕ) (clock : ℕ) (e : AreaEntry)
      → (f e).id ≡ e.id
      → IsNormal unicode e.id (stamp now clock (apply unicode f e) e)
  unfolding stamp apply
  stamped_IsNormal f now clock e kept =
      if_both (IsNormal unicode e.id) (is_changed (apply unicode f e) e) _ _ (kept, refl)
        (kept, refl)

  name-stamp :
      (now : Option ℕ) (clock : ℕ) (e old : AreaEntry) → (stamp now clock e old).name ≡ e.name
  unfolding stamp
  name-stamp now clock e old = if_both (λ w. w.name ≡ e.name) (is_changed e old) _ e refl refl

  reindex_cases :
      (now : Option ℕ) (clock : ℕ) (e old : AreaEntry) (r : AreaRegistry)
      → ((reindex unicode now clock e old r).1 ≡ index_entry old r)
        ⊎ (((reindex unicode now clock e old r).1 ≡ index_entry (stamp now clock e old) r)
            × ((e.name ≡ old.name) ⊎ (Map.lookup (normalize_name unicode e.name) r.by_name ≡ none)))
  unfolding reindex
  reindex_cases now clock e old r =
      elim (Bool-cases
        (not (e.name == old.name) && Map.contains_key (normalize_name unicode e.name) r.by_name)) [
          | inl t ↦ inl (ground (arith, t))
          | inr t ↦ inr (
            ground (arith, t),
            elim (Bool-cases (e.name == old.name)) [
              | inl same ↦ inl ((==_iff e.name old.name).0 same)
              | inr differs ↦ inr (ground (arith, t, differs))
            ],
          )
        ]

  -- Once an entry is out, its name is free.
  name_is_free :
      (e : AreaEntry) (r : AreaRegistry)
      → IsNormal unicode e.id e
      → Map.lookup (normalize_name unicode e.name) (unindex_entry e r).by_name ≡ none
  unfolding unindex_entry unindex_secondary remove_primary
  name_is_free e r normal = ground (
    arith,
    lookup-remove_name e.normalized_name (normalize_name unicode e.name) r.by_name,
    normal.1,
    ==_iff e.normalized_name (some (normalize_name unicode e.name)),
  )

  get-unindex_entry : (e : AreaEntry) (r : AreaRegistry) → get (unindex_entry e r) e.id ≡ none
  unfolding unindex_entry unindex_secondary remove_primary get
  get-unindex_entry e r = ground (arith, lookup-remove e.id e.id r.by_id, ==_iff e.id e.id)

  reindex-IsIndexed :
      (f : AreaEntry → AreaEntry) (now : Option ℕ) (clock : ℕ) (e : AreaEntry) (r : AreaRegistry)
      → (f e).id ≡ e.id
      → IsNormal unicode e.id e
      → get r e.id ≡ some e
      → IsIndexed unicode r
      → IsIndexed unicode (reindex unicode now clock (apply unicode f e) e (unindex_entry e r)).1
  reindex-IsIndexed f now clock e r kept normal there i =
      let out = unindex_entry-IsIndexed unicode e r there i in
      let stamped = stamped_IsNormal f now clock e kept in
      elim (reindex_cases now clock (apply unicode f e) e (unindex_entry e r)) [
        | inl same ↦ rw same (
            index_entry-IsIndexed unicode e (unindex_entry e r) normal (get-unindex_entry e r)
              (name_is_free e r normal) out)
        | inr (same, free) ↦
            let u = unindex_entry e r in
            let w = stamp now clock (apply unicode f e) e in
            let at = λ (n : Text). Map.lookup (normalize_name unicode n) u.by_name in
            rw same (
              index_entry-IsIndexed unicode w u (refl, stamped.1)
                (ap (get u) stamped.0 ∙ get-unindex_entry e r)
                (ap at (name-stamp now clock (apply unicode f e) e) ∙ elim free [
                  | inl kept_name ↦ ap at kept_name ∙ name_is_free e r normal
                  | inr unused ↦ unused
                ])
                out)
      ]

  update_of-IsIndexed :
      (o : Option AreaEntry) (id : Text) (f : AreaEntry → AreaEntry) (now : Option ℕ) (clock : ℕ)
      (r : AreaRegistry)
      → ((e : AreaEntry) → (f e).id ≡ e.id)
      → get r id ≡ o
      → IsIndexed unicode r
      → IsIndexed unicode (update_of unicode o id f now clock r).1
  unfolding update_of
  update_of-IsIndexed none id f now clock r kept there i = i
  update_of-IsIndexed (some e) id f now clock r kept there i =
      let normal = i.normal id e there in
      let out = λ (s : AreaRegistry). (reindex unicode now clock (apply unicode f e) e s).1 in
      rw
        (ap (λ k. out (unindex_secondary e (remove_primary k r))) (sym normal.0)
          ∙ ap out (unindex_secondary-remove_primary e r))
        (reindex-IsIndexed f now clock e r (kept e) (refl, normal.1) (ap (get r) normal.0 ∙ there)
          i)

  pub update-IsIndexed :
      (id : Text) (f : AreaEntry → AreaEntry) (now : Option ℕ) (clock : ℕ) (r : AreaRegistry)
      → ((e : AreaEntry) → (f e).id ≡ e.id)
      → IsIndexed unicode r
      → IsIndexed unicode (update unicode id f now clock r).1
  unfolding update
  update-IsIndexed id f now clock r kept i =
      update_of-IsIndexed (get r id) id f now clock r kept refl i
