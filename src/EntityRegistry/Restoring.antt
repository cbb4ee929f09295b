-- ===== src/EntityRegistry/Restoring.antt =====
-- An entity that crates/ha-registries/src/entity_registry.rs removed comes back when it is registered
-- again.
use homeassistant_rs.Base.{
  ◌≡◌, refl, sym, ap, ◌∙◌, Option, none, some, [], arith, ==_iff, ==_refl, ◌==◌, list_eq, nat_eq,
  option_eq, pair_eq, if◌then◌else◌, unwrap_or,
}
use homeassistant_rs.Base.Text.{Text}
use homeassistant_rs.Base.Map
use homeassistant_rs.Base.Map.{lookup-insert}
use homeassistant_rs.Core.State.{Time}
use homeassistant_rs.EntityRegistry.Entry.{EntityEntry, first_part, domain}
use homeassistant_rs.EntityRegistry.{
  EntityRegistry, DeletedKey, unique_key, unindex_entry, get, get_by_platform_unique_id,
}
use homeassistant_rs.EntityRegistry.Operations.{deleted_key, track_deleted, remove_of, remove}
use homeassistant_rs.EntityRegistry.Creation.{
  restore, find_deleted, find_existing, with_key, restore_or_create, adopt_or_create,
  find_or_create, get_or_create,
}
use homeassistant_rs.EntityRegistry.Indexes.{
  owner, owns, key_of_unique, unique_key_of, get-unindex_entry, owner-unindex_entry,
}
use homeassistant_rs.EntityRegistry.Integrity.{remove_of_lem}

module _ {Json : Type 0} where
  -- The registry after the removal.
  abbrev without : EntityEntry Json → EntityRegistry Json → EntityRegistry Json
  without e r = track_deleted e (unindex_entry e r)

  remove-without :
      (e : EntityEntry Json) (r : EntityRegistry Json)
      → get r e.entity_id ≡ some e
      → remove e.entity_id r ≡ (some e, without e r)
  unfolding remove
  remove-without e r h =
      ap (λ o. remove_of o e.entity_id r) h ∙ (remove_of_lem e e.entity_id r refl).0

  owner-without :
      (e : EntityEntry Json) (r : EntityRegistry Json) (key : Text)
      → owner (without e r) key ≡ (if owns key (some e) then none else owner r key)
  unfolding track_deleted
  owner-without e r key = owner-unindex_entry e r key

  get-without :
      (e : EntityEntry Json) (r : EntityRegistry Json) (j : Text)
      → get (without e r) j ≡ (if e.entity_id == j then none else get r j)
  unfolding track_deleted get
  get-without e r j = get-unindex_entry e r j

  find_existing-without :
      (e : EntityEntry Json) (u : Text) (r : EntityRegistry Json)
      → e.unique_id ≡ some u
      → find_existing e.platform (some u) (without e r) ≡ none
  unfolding find_existing get_by_platform_unique_id
  find_existing-without e u r h =
      let key = unique_key e.platform u in
      let its_key : unique_key_of e ≡ some key = ap (key_of_unique e.platform) h in
      let free : owner (without e r) key ≡ none =
        owner-without e r key
        ∙ ap (λ b. if b then none else owner r key)
            ((==_iff (unique_key_of e) (some key)).1 its_key) in
      ground (arith, free)

  find_deleted-without :
      (e : EntityEntry Json) (u : Text) (r : EntityRegistry Json)
      → e.unique_id ≡ some u
      → find_deleted e.platform e.entity_id (some u) (without e r) ≡ some (deleted_key e, e)
  unfolding find_deleted track_deleted deleted_key domain
  find_deleted-without e u r h =
      let k : DeletedKey = (first_part e.entity_id, (e.platform, u)) in
      let same : k ≡ deleted_key e =
        ap (λ o. (first_part e.entity_id, (e.platform, unwrap_or o []))) (sym h) in
      ap (λ x. with_key x (Map.lookup x (without e r).deleted)) same
      ∙ ap (with_key (deleted_key e)) (
          lookup-insert (deleted_key e) (deleted_key e) e (unindex_entry e r).deleted
          ∙ ap (λ b. if b then some e else Map.lookup (deleted_key e) (unindex_entry e r).deleted)
              (==_refl (deleted_key e)))

  -- An entity with a unique id that is removed and then registered again, by the same platform and
  -- under the same ids, comes back with all that it had, its `id` and `created_at` included; only
  -- `modified_at` is new. In between it is not found.
  pub get_or_create-remove :
      (uuid : Text) (now : Time) (u : Text) (config_entry_id device_id : Option Text)
      (e : EntityEntry Json) (r : EntityRegistry Json)
      → get r e.entity_id ≡ some e
      → e.unique_id ≡ some u
      → let t = (remove e.entity_id r).1 in
        (get t e.entity_id ≡ none)
        × ((get_or_create uuid now e.platform e.entity_id (some u) config_entry_id device_id t).0
            ≡ record e { modified_at = now })
  unfolding get_or_create find_or_create adopt_or_create restore_or_create restore
  get_or_create-remove uuid now u c d e r h hu =
      let gone : get (without e r) e.entity_id ≡ none =
        get-without e r e.entity_id
        ∙ ap (λ b. if b then none else get r e.entity_id) (==_refl e.entity_id) in
      rw (remove-without e r h) (
        gone,
        rw (find_existing-without e u r hu) (rw gone (rw (find_deleted-without e u r hu) refl)),
      )
