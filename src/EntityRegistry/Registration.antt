-- ===== src/EntityRegistry/Registration.antt =====
-- What `update` and `get_or_create` of crates/ha-registries/src/entity_registry.rs do to the indexes,
-- and which entry they return.
use mathlib.Core.Path.{subst}
use homeassistant_rs.Base.{
  ◌≡◌, refl, sym, ap, ◌∙◌, Option, none, some, [], arith, ==_iff, ==_refl, ◌&&◌, list_eq, nat_eq,
  option_eq, pair_eq, Bool-cases, Option-cases, inl, inr, unwrap_or, ok, is_some, not,
}
use homeassistant_rs.Base.Text.{Text}
use homeassistant_rs.Base.Map
use homeassistant_rs.Base.Map.{Map, lookup-insert, lookup-remove, remove-remove}
use homeassistant_rs.Core.State.{Time}
use homeassistant_rs.EntityRegistry.Entry
use homeassistant_rs.EntityRegistry.Entry.{EntityEntry, first_part, domain}
use homeassistant_rs.EntityRegistry.{
  EntityRegistry, DeletedKey, unique_key, index_entry, unindex_secondary, remove_primary,
  unindex_entry, get, get_by_platform_unique_id,
}
use homeassistant_rs.EntityRegistry.Operations.{update_of, update}
use homeassistant_rs.EntityRegistry.Creation.{adopt, create, restore, find_existing}
use homeassistant_rs.EntityRegistry.Indexes.{
  unique_key_of, key_of_unique, owner, IsIndexed, IsFree, get-index_entry, get-unindex_entry,
  owner-unindex_entry,
}
use homeassistant_rs.EntityRegistry.Integrity.{
  IsSound, unindex_secondary-remove_primary, unindex_entry-IsSound, index_entry-IsSound,
}

module _ {Json : Type 0} where
  pub update_of_lem :
      (e : EntityEntry Json) (id : Text) (f : EntityEntry Json → EntityEntry Json)
      (r : EntityRegistry Json)
      → e.entity_id ≡ id
      → update_of (some e) id f r ≡ (ok (f e), index_entry (f e) (unindex_entry e r))
  unfolding update_of
  update_of_lem e id f r p =
      ap (λ k. (ok (f e), index_entry (f e) (unindex_secondary e.entity_id e (remove_primary k r))))
        (sym p)
      ∙ ap (λ s. (ok (f e), index_entry (f e) s)) (unindex_secondary-remove_primary e r)

  reindex-IsSound :
      (e w : EntityEntry Json) (r : EntityRegistry Json)
      → get r e.entity_id ≡ some e
      → w.entity_id ≡ e.entity_id
      → IsFree w (unindex_entry e r)
      → IsSound r
      → IsSound (index_entry w (unindex_entry e r))
  reindex-IsSound e w r there same free s =
      index_entry-IsSound w (unindex_entry e r)
        (ground (arith, get-unindex_entry e r w.entity_id, same, ==_iff e.entity_id w.entity_id))
        free (unindex_entry-IsSound e r there s)

  update_of-IsSound :
      (old : Option (EntityEntry Json)) (id : Text) (f : EntityEntry Json → EntityEntry Json)
      (r : EntityRegistry Json)
      → get r id ≡ old
      → ((e : EntityEntry Json)
          → get r id ≡ some e
          → ((f e).entity_id ≡ e.entity_id) × IsFree (f e) (unindex_entry e r))
      → IsSound r
      → IsSound (update_of old id f r).1
  unfolding update_of
  update_of-IsSound none id f r h k s = s
  update_of-IsSound (some e) id f r h k s =
      let key : e.entity_id ≡ id = s.0.keyed id e h in
      let (same, free) = k e h in
      subst IsSound (sym (ap (λ x. x.1) (update_of_lem e id f r key)))
        (reindex-IsSound e (f e) r (ap (get r) key ∙ h) same free s)

  -- An update keeps the indexes right where it keeps the entity id and gives a unique id that no
  -- other entity of the platform has.
  pub update-IsSound :
      (id : Text) (f : EntityEntry Json → EntityEntry Json) (r : EntityRegistry Json)
      → ((e : EntityEntry Json)
          → get r id ≡ some e
          → ((f e).entity_id ≡ e.entity_id) × IsFree (f e) (unindex_entry e r))
      → IsSound r
      → IsSound (update id f r).1
  unfolding update
  update-IsSound id f r k s = update_of-IsSound (get r id) id f r refl k s

  not_found-owner :
      (p u : Text) (r : EntityRegistry Json)
      → IsIndexed r
      → find_existing p (some u) r ≡ none
      → owner r (unique_key p u) ≡ none
  unfolding find_existing get_by_platform_unique_id
  not_found-owner p u r i h = elim (Option-cases (owner r (unique_key p u))) [
    | inl free ↦ free
    | inr (id, taken) ↦ absurd (ground (arith, taken, h, i.owned (unique_key p u) id taken))
  ]

  not_found-IsFree :
      (x : EntityEntry Json) (p : Text) (o : Option Text) (r : EntityRegistry Json)
      → IsIndexed r
      → find_existing p o r ≡ none
      → x.platform ≡ p
      → x.unique_id ≡ o
      → IsFree x r
  not_found-IsFree x p none r i h same none_there key own = absurd (ground (arith, none_there, own))
  not_found-IsFree x p (some u) r i h same there key own =
      let its_key : some (unique_key p u) ≡ unique_key_of x =
        ap (λ q. key_of_unique q (some u)) (sym same) ∙ ap (key_of_unique x.platform) (sym there) in
      let at : unique_key p u ≡ key =
        ground (arith, its_key ∙ (==_iff (unique_key_of x) (some key)).0 own) in
      ap (owner r) (sym at) ∙ not_found-owner p u r i h

  IsFree-unindex_entry :
      (w e : EntityEntry Json) (r : EntityRegistry Json) → IsFree w r → IsFree w (unindex_entry e r)
  IsFree-unindex_entry w e r free key own =
      ground (arith, owner-unindex_entry e r key, free key own)

  get-registered :
      (e : EntityEntry Json) (r : EntityRegistry Json) → get (index_entry e r) e.entity_id ≡ some e
  get-registered e r = get-index_entry e r e.entity_id ∙ rw (==_refl e.entity_id) refl

  -- The entry that `adopt` writes.
  abbrev pub adopted : Time → Option Text → EntityEntry Json → EntityEntry Json
  adopted now o e = record e { unique_id = o; modified_at = now }

  adopted-IsSound :
      (now : Time) (p : Text) (o : Option Text) (existing : EntityEntry Json)
      (r : EntityRegistry Json)
      → get r existing.entity_id ≡ some existing
      → existing.platform ≡ p
      → find_existing p o r ≡ none
      → IsSound r
      → IsSound (index_entry (adopted now o existing) (unindex_entry existing r))
  adopted-IsSound now p o existing r there same n s =
      reindex-IsSound existing (adopted now o existing) r there refl
        (IsFree-unindex_entry (adopted now o existing) existing r
          (not_found-IsFree (adopted now o existing) p o r s.0 n same refl))
        s

  pub adopt-IsSound :
      (now : Time) (p : Text) (o : Option Text) (existing : EntityEntry Json) (id : Text)
      (r : EntityRegistry Json)
      → get r id ≡ some existing
      → existing.platform ≡ p
      → find_existing p o r ≡ none
      → IsSound r
      → let (e, t) = adopt now o existing id r in IsSound t × (get t e.entity_id ≡ some e)
  unfolding adopt
  adopt-IsSound now p o existing id r h same n s =
      let key : existing.entity_id ≡ id = s.0.keyed id existing h in
      let there : get r existing.entity_id ≡ some existing = ap (get r) key ∙ h in
      let w = adopted now o existing in
      let state : (update_of (some existing) id (λ _. w) r).1
          ≡ index_entry w (unindex_entry existing r) =
        ap (λ x. x.1) (update_of_lem existing id (λ _. w) r key) in
      elim (Bool-cases (not (is_some existing.unique_id) && is_some o)) [
        | inl t ↦ rw t (
            subst (λ u. IsSound u × (get u w.entity_id ≡ some w)) (sym state)
              (
                adopted-IsSound now p o existing r there same n s,
                get-registered w (unindex_entry existing r),
              ))
        | inr t ↦ rw t (s, there)
      ]

  abbrev forget : DeletedKey → EntityRegistry Json → EntityRegistry Json
  forget key r = record r { deleted = Map.remove key r.deleted }

  forget-IsSound : (key : DeletedKey) (r : EntityRegistry Json) → IsSound r → IsSound (forget key r)
  unfolding get
  forget-IsSound key r (i, tracked) = (
    record {
      keyed = i.keyed;
      by_device = i.by_device;
      by_config_entry = i.by_config_entry;
      by_area = i.by_area;
      by_label = i.by_label;
      by_platforms = i.by_platforms;
      owned = i.owned;
      leads = i.leads;
    },
    λ k e h. tracked k e (ground (arith, lookup-remove key k r.deleted, h)),
  )

  tracked-IsFree :
      (x e : EntityEntry Json) (p u : Text) (key : DeletedKey) (r : EntityRegistry Json)
      → x.platform ≡ e.platform
      → x.unique_id ≡ e.unique_id
      → find_existing p (some u) r ≡ none
      → Map.lookup key r.deleted ≡ some e
      → key.1 ≡ (p, u)
      → IsSound r
      → IsFree x r
  unfolding find_existing
  tracked-IsFree x e p u key r xp xu n h place (i, tracked) own_key own =
      let (its_platform, its_unique_id) = tracked key e h in
      let same : x.platform ≡ p = xp ∙ its_platform ∙ ap (λ (k : Text × Text). k.0) place in
      elim (Option-cases e.unique_id) [
        | inl none_there ↦ not_found-IsFree x p none r i refl same (xu ∙ none_there) own_key own
        | inr (v, there) ↦
            let value : v ≡ u =
              ap (λ o. unwrap_or o []) (sym there)
              ∙ its_unique_id
              ∙ ap (λ (k : Text × Text). k.1) place in
            not_found-IsFree x p (some u) r i n same (xu ∙ there ∙ ap some value) own_key own
      ]

  pub restore-IsSound :
      (now : Time) (id p u : Text) (key : DeletedKey) (e : EntityEntry Json)
      (r : EntityRegistry Json)
      → get r id ≡ none
      → find_existing p (some u) r ≡ none
      → Map.lookup key r.deleted ≡ some e
      → key.1 ≡ (p, u)
      → IsSound r
      → let (x, t) = restore now id key e r in IsSound t × (get t x.entity_id ≡ some x)
  unfolding restore get find_existing
  restore-IsSound now id p u key e r fresh n h place s =
      let x = record e { entity_id = id; modified_at = now } in
      (
        index_entry-IsSound x (forget key r) fresh
            (tracked-IsFree x e p u key r refl refl n h place s) (forget-IsSound key r s),
        get-registered x (forget key r),
      )

  pub create-IsSound :
      (uuid : Text) (now : Time) (p id : Text) (o config_entry_id device_id : Option Text)
      (r : EntityRegistry Json)
      → get r id ≡ none
      → find_existing p o r ≡ none
      → IsSound r
      → let (x, t) = create uuid now p id o config_entry_id device_id r in
        IsSound t × (get t x.entity_id ≡ some x)
  unfolding create Entry.new
  create-IsSound uuid now p id o config_entry_id device_id r fresh n s =
      let x = record (Entry.new uuid now id p o) {
        config_entry_id = config_entry_id;
        device_id = device_id;
      } in
      (
        index_entry-IsSound x r fresh (not_found-IsFree x p o r s.0 n refl refl) s,
        get-registered x r,
      )
