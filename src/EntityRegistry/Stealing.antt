-- ===== src/EntityRegistry/Stealing.antt =====
-- What `get_or_create` of crates/ha-registries/src/entity_registry.rs does to an entity that another
-- platform registered without a unique id.
use mathlib.Core.Path.{subst}
use homeassistant_rs.Base.{
  ◌≡◌, ◌≢◌, refl, sym, ap, ◌∙◌, true, Option, none, some, arith, ==_iff, ==_refl, list_eq, nat_eq,
  option_eq, if◌then◌else◌, not, ◌&&◌, is_some,
}
use homeassistant_rs.Base.Text.{Text}
use homeassistant_rs.Core.State.{Time}
use homeassistant_rs.EntityRegistry.Entry.{EntityEntry}
use homeassistant_rs.EntityRegistry.{EntityRegistry, unique_key, index_entry, unindex_entry, get}
use homeassistant_rs.EntityRegistry.Creation.{
  adopt, find_existing, adopt_or_create, find_or_create, get_or_create,
}
use homeassistant_rs.EntityRegistry.Indexes.{
  IsIndexed, owner, owns, key_of_unique, unique_key_of, get-index_entry, get-unindex_entry,
  owner-index_entry,
}
use homeassistant_rs.EntityRegistry.Registration.{adopted, update_of_lem}

module _ {Json : Type 0} where
  adopt-unset :
      (now : Time) (u : Text) (e : EntityEntry Json) (r : EntityRegistry Json)
      → e.unique_id ≡ none
      → (adopt now (some u) e e.entity_id r).1
        ≡ index_entry (adopted now (some u) e) (unindex_entry e r)
  unfolding adopt
  adopt-unset now u e r unset =
      let t : (not (is_some e.unique_id) && is_some (some u)) ≡ true = ground (arith, unset) in
      rw t (ap (λ x. x.1) (update_of_lem e e.entity_id (λ _. adopted now (some u) e) r refl))

  get_or_create-adopted :
      (uuid : Text) (now : Time) (p u : Text) (c d : Option Text) (e : EntityEntry Json)
      (r : EntityRegistry Json)
      → get r e.entity_id ≡ some e
      → e.unique_id ≡ none
      → find_existing p (some u) r ≡ none
      → (get_or_create uuid now p e.entity_id (some u) c d r).1
        ≡ index_entry (adopted now (some u) e) (unindex_entry e r)
  unfolding get_or_create find_or_create adopt_or_create
  get_or_create-adopted uuid now p u c d e r h unset n =
      ap (λ o. (find_or_create o uuid now p e.entity_id (some u) c d r).1) n
      ∙ ap (λ o. (adopt_or_create o uuid now p e.entity_id (some u) c d r).1) h
      ∙ adopt-unset now u e r unset

  -- `get_or_create` looks for the unique id under the platform that asks, but gives it to the entity
  -- that has the entity id, whatever its platform is: if another entity of that platform has the
  -- unique id, the indexes break.
  pub get_or_create_steals :
      (uuid : Text) (now : Time) (p u : Text) (c d : Option Text) (ea eb : EntityEntry Json)
      (r : EntityRegistry Json)
      → IsIndexed r
      → get r ea.entity_id ≡ some ea
      → get r eb.entity_id ≡ some eb
      → ea.entity_id ≢ eb.entity_id
      → ea.platform ≡ eb.platform
      → ea.unique_id ≡ some u
      → eb.unique_id ≡ none
      → find_existing p (some u) r ≡ none
      → ¬ IsIndexed (get_or_create uuid now p eb.entity_id (some u) c d r).1
  get_or_create_steals uuid now p u c d ea eb r i ha hb ne same ua ub n j =
      let w = adopted now (some u) eb in
      let t = index_entry w (unindex_entry eb r) in
      let k : IsIndexed t =
        subst IsIndexed (get_or_create-adopted uuid now p u c d eb r hb ub n) j in
      let key = unique_key eb.platform u in
      let there : get t ea.entity_id ≡ some ea = ground (
        arith,
        get-index_entry w (unindex_entry eb r) ea.entity_id,
        get-unindex_entry eb r ea.entity_id,
        ==_iff eb.entity_id ea.entity_id,
        ha,
      ) in
      let taken : owner t key ≡ some eb.entity_id =
        owner-index_entry w (unindex_entry eb r) key
        ∙ ap (λ b. if b then some eb.entity_id else owner (unindex_entry eb r) key)
            (==_refl (some key)) in
      let its_key : unique_key_of ea ≡ some key =
        ap (key_of_unique ea.platform) ua ∙ ap (λ q. some (unique_key q u)) same in
      let held : owner t key ≡ some ea.entity_id =
        k.leads key ea.entity_id
          (ap (owns key) there ∙ (==_iff (unique_key_of ea) (some key)).1 its_key) in
      let clash : some ea.entity_id ≡ some eb.entity_id = sym held ∙ taken in
      ne (ground (arith, clash))
