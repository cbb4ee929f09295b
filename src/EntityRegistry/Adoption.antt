-- ===== src/EntityRegistry/Adoption.antt =====
-- `get_or_create` of crates/ha-registries/src/entity_registry.rs in all its branches.
use homeassistant_rs.Base.{
  ◌≡◌, refl, sym, ap, ◌∙◌, Option, none, some, arith, list_eq, nat_eq, option_eq, pair_eq,
  Option-cases, inl, inr,
}
use homeassistant_rs.Base.Text.{Text}
use homeassistant_rs.Base.Map
use homeassistant_rs.Base.Map.{lookup-insert}
use homeassistant_rs.Core.State.{Time}
use homeassistant_rs.EntityRegistry.Entry.{EntityEntry, first_part}
use homeassistant_rs.EntityRegistry.{
  EntityRegistry, DeletedKey, unique_key, get, get_by_platform_unique_id,
}
use homeassistant_rs.EntityRegistry.Creation.{
  find_deleted, find_existing, with_key, restore_or_create, adopt_or_create, find_or_create,
  get_or_create,
}
use homeassistant_rs.EntityRegistry.Indexes.{IsIndexed, owner}
use homeassistant_rs.EntityRegistry.Integrity.{IsSound}
use homeassistant_rs.EntityRegistry.Registration.{adopt-IsSound, restore-IsSound, create-IsSound}

module _ {Json : Type 0} where
  found-get :
      (p : Text) (o : Option Text) (r : EntityRegistry Json) (x : EntityEntry Json)
      → IsIndexed r
      → find_existing p o r ≡ some x
      → get r x.entity_id ≡ some x
  unfolding find_existing get_by_platform_unique_id
  found-get p none r x i h = absurd (ground arith)
  found-get p (some u) r x i h = elim (Option-cases (owner r (unique_key p u))) [
    | inl free ↦ absurd (ground (arith, free, h))
    | inr (id, taken) ↦
        let there : get r id ≡ some x = ground (arith, taken, h) in
        ap (get r) (i.keyed id x there) ∙ there
  ]

  find_deleted_lem :
      (p id : Text) (o : Option Text) (r : EntityRegistry Json) (key : DeletedKey)
      (e : EntityEntry Json)
      → find_deleted p id o r ≡ some (key, e)
      → (u : Text) × (o ≡ some u) × (key.1 ≡ (p, u)) × (Map.lookup key r.deleted ≡ some e)
  unfolding find_deleted
  find_deleted_lem p id none r key e h = absurd (ground arith)
  find_deleted_lem p id (some u) r key e h =
      let k : DeletedKey = (first_part id, (p, u)) in
      elim (Option-cases (Map.lookup k r.deleted)) [
        | inl gone ↦ absurd (ground (arith, gone, h))
        | inr (w, there) ↦
            let both : some (k, w) ≡ some (key, e) = sym (ap (with_key k) there) ∙ h in
            let same : k ≡ key = ground (arith, both) in
            let value : w ≡ e = ground (arith, both) in
            (
              u,
              refl,
              ap (λ (x : DeletedKey). x.1) (sym same),
              ap (λ x. Map.lookup x r.deleted) (sym same) ∙ there ∙ ap some value,
            )
      ]

  restore_or_create-IsSound :
      (old : Option (DeletedKey × EntityEntry Json)) (uuid : Text) (now : Time) (p id : Text)
      (o config_entry_id device_id : Option Text) (r : EntityRegistry Json)
      → find_deleted p id o r ≡ old
      → get r id ≡ none
      → find_existing p o r ≡ none
      → IsSound r
      → let (x, t) = restore_or_create old uuid now p id o config_entry_id device_id r in
        IsSound t × (get t x.entity_id ≡ some x)
  unfolding restore_or_create
  restore_or_create-IsSound none uuid now p id o config_entry_id device_id r h fresh n s =
      create-IsSound uuid now p id o config_entry_id device_id r fresh n s
  restore_or_create-IsSound (some (key, e)) uuid now p id o config_entry_id device_id r h fresh n
        s =
      let (u, asked, place, there) = find_deleted_lem p id o r key e h in
      restore-IsSound now id p u key e r fresh (ap (λ q. find_existing p q r) (sym asked) ∙ n) there
        place s

  adopt_or_create-IsSound :
      (old : Option (EntityEntry Json)) (uuid : Text) (now : Time) (p id : Text)
      (o config_entry_id device_id : Option Text) (r : EntityRegistry Json)
      → get r id ≡ old
      → ((e : EntityEntry Json) → get r id ≡ some e → e.platform ≡ p)
      → find_existing p o r ≡ none
      → IsSound r
      → let (x, t) = adopt_or_create old uuid now p id o config_entry_id device_id r in
        IsSound t × (get t x.entity_id ≡ some x)
  unfolding adopt_or_create
  adopt_or_create-IsSound none uuid now p id o config_entry_id device_id r h same n s =
      restore_or_create-IsSound (find_deleted p id o r) uuid now p id o config_entry_id device_id r
        refl h n s
  adopt_or_create-IsSound (some e) uuid now p id o config_entry_id device_id r h same n s =
      adopt-IsSound now p o e id r h (same e h) n s

  find_or_create-IsSound :
      (old : Option (EntityEntry Json)) (uuid : Text) (now : Time) (p id : Text)
      (o config_entry_id device_id : Option Text) (r : EntityRegistry Json)
      → find_existing p o r ≡ old
      → ((e : EntityEntry Json) → get r id ≡ some e → e.platform ≡ p)
      → IsSound r
      → let (x, t) = find_or_create old uuid now p id o config_entry_id device_id r in
        IsSound t × (get t x.entity_id ≡ some x)
  unfolding find_or_create
  find_or_create-IsSound none uuid now p id o config_entry_id device_id r n same s =
      adopt_or_create-IsSound (get r id) uuid now p id o config_entry_id device_id r refl same n s
  find_or_create-IsSound (some x) uuid now p id o config_entry_id device_id r h same s =
      (s, found-get p o r x s.0 h)

  -- `get_or_create` keeps the indexes right, and returns the entry that is then registered under its
  -- entity id, unless the entity id is registered for another platform.
  pub get_or_create-IsSound :
      (uuid : Text) (now : Time) (p id : Text) (o config_entry_id device_id : Option Text)
      (r : EntityRegistry Json)
      → ((e : EntityEntry Json) → get r id ≡ some e → e.platform ≡ p)
      → IsSound r
      → let (x, t) = get_or_create uuid now p id o config_entry_id device_id r in
        IsSound t × (get t x.entity_id ≡ some x)
  unfolding get_or_create
  get_or_create-IsSound uuid now p id o config_entry_id device_id r same s =
      find_or_create-IsSound (find_existing p o r) uuid now p id o config_entry_id device_id r refl
        same s
