-- ===== src/EntityRegistry/Tests.antt =====
-- The entity registry at concrete entities; a `serde_json::Value` is a text here.
use mathlib.Core.List.{Memᴰ}
use mathlib.Core.Path.{subst}
use homeassistant_rs.Base.{
  ◌≡◌, ◌↔◌, refl, true, none, some, [], ◌∷◌, arith, list_eq, nat_eq, option_eq, pair_eq, list_beq,
  ◌++◌, ==_iff,
}
use homeassistant_rs.Base.Text.{Text, text}
use homeassistant_rs.Base.Map
use homeassistant_rs.Base.IdSet
use homeassistant_rs.EntityRegistry.Entry
use homeassistant_rs.EntityRegistry.Entry.{EntityEntry, first_part, domain}
use homeassistant_rs.EntityRegistry.{
  EntityRegistry, new, index_entry, unindex_entry, unindex_secondary, remove_primary, get,
  get_by_platform_unique_id, unique_key, insert_unique_id, remove_unique_id, get_by_device_id,
  get_by_config_entry_id, get_by_area_id, get_by_label_id, get_by_platform,
}
use homeassistant_rs.EntityRegistry.Operations.{remove, bulk_remove}
use homeassistant_rs.EntityRegistry.Creation.{find_existing, get_or_create}
use homeassistant_rs.EntityRegistry.Indexes.{IsIndexed, IsFree, owner}
use homeassistant_rs.EntityRegistry.Integrity.{
  IsSound, new-IsSound, index_entry-IsSound, remove_each, bulk_remove-remove_each,
}
use homeassistant_rs.EntityRegistry.Adoption.{get_or_create-IsSound}
use homeassistant_rs.EntityRegistry.Restoring.{get_or_create-remove}
use homeassistant_rs.EntityRegistry.Stealing.{get_or_create_steals}
use homeassistant_rs.EntityRegistry.Queries.{IsThere, queries_lem}

abbrev lamp : EntityEntry Text
lamp = record (Entry.new (text "u1") 1 (text "light.lamp") (text "hue") (some (text "1"))) {
  device_id = some (text "bridge");
  labels = text "cosy" ∷ [];
}

abbrev plug : EntityEntry Text
plug = Entry.new (text "u2") 2 (text "switch.plug") (text "hue") none

abbrev home : EntityRegistry Text
home = index_entry plug (index_entry lamp (new none))

lamp-IsSound : IsSound (index_entry lamp (new none))
unfolding new get Entry.new Map.lookup
lamp-IsSound = index_entry-IsSound lamp (new none) refl (λ key h. refl) new-IsSound

home-IsSound : IsSound home
unfolding new get Entry.new index_entry Map.lookup Map.insert list_beq
home-IsSound =
    index_entry-IsSound plug (index_entry lamp (new none)) refl (λ key h. absurd (ground arith))
      lamp-IsSound

get-lamp : get home (text "light.lamp") ≡ some lamp
unfolding new get Entry.new index_entry Map.lookup Map.insert list_beq
get-lamp = refl

get-plug : get home (text "switch.plug") ≡ some plug
unfolding new get Entry.new index_entry Map.lookup Map.insert list_beq
get-plug = refl

not_mqtt : find_existing (text "mqtt") (some (text "1")) home ≡ none
unfolding find_existing get_by_platform_unique_id unique_key insert_unique_id new get Entry.new
    index_entry Map.lookup Map.insert list_beq
not_mqtt = refl

bulk_remove-remove_each_example :
    bulk_remove (text "switch.plug" ∷ text "none" ∷ text "light.lamp" ∷ []) home
    ≡ remove_each (text "switch.plug" ∷ text "none" ∷ text "light.lamp" ∷ []) home
bulk_remove-remove_each_example =
    bulk_remove-remove_each (text "switch.plug" ∷ text "none" ∷ text "light.lamp" ∷ []) home
      home-IsSound

abbrev with_two : EntityEntry Text → EntityEntry Text
with_two e = record e { unique_id = some (text "2") }

with_two-IsFree : IsFree (with_two plug) (unindex_entry plug home)
unfolding new get Entry.new index_entry unindex_entry unindex_secondary remove_primary
    insert_unique_id remove_unique_id unique_key Map.lookup Map.insert list_beq
with_two-IsFree key h =
    let its_key : text "hue" ++ 0 ∷ text "2" ≡ key =
      (==_iff (text "hue" ++ 0 ∷ text "2") key).0 h in
    subst (λ x. owner (unindex_entry plug home) x ≡ none) its_key refl

get_or_create-IsSound_example :
    let (x, t) =
      get_or_create
        (text "u3")
        3
        (text "hue")
        (text "switch.plug")
        (some (text "2"))
        none
        none
        home in
    IsSound t × (get t x.entity_id ≡ some x)
unfolding Entry.new
get_or_create-IsSound_example =
    get_or_create-IsSound (text "u3") 3 (text "hue") (text "switch.plug") (some (text "2")) none
      none home (λ e h. ground (arith, get-plug)) home-IsSound

get_or_create-remove_example :
    let t = (remove lamp.entity_id home).1 in
    (get t lamp.entity_id ≡ none)
    × ((get_or_create (text "u4") 9 lamp.platform lamp.entity_id (some (text "1")) none none t).0
        ≡ record lamp { modified_at = 9 })
unfolding Entry.new
get_or_create-remove_example =
    get_or_create-remove (text "u4") 9 (text "1") none none lamp home get-lamp refl

get_or_create_steals_example :
    ¬ IsIndexed
      (get_or_create (text "u5") 5 (text "mqtt") plug.entity_id (some (text "1")) none none home).1
unfolding Entry.new
get_or_create_steals_example =
    get_or_create_steals (text "u5") 5 (text "mqtt") (text "1") none none lamp plug home
      home-IsSound.0 get-lamp get-plug (λ p. ground arith) refl refl refl not_mqtt

queries_lem_example :
    (Memᴰ lamp (get_by_device_id home (text "bridge"))
      ↔ ((lamp.device_id ≡ some (text "bridge")) × IsThere home lamp))
    × (Memᴰ lamp (get_by_config_entry_id home (text "bridge"))
        ↔ ((lamp.config_entry_id ≡ some (text "bridge")) × IsThere home lamp))
    × (Memᴰ lamp (get_by_area_id home (text "bridge"))
        ↔ ((lamp.area_id ≡ some (text "bridge")) × IsThere home lamp))
    × (Memᴰ lamp (get_by_label_id home (text "bridge"))
        ↔ ((IdSet.contains (text "bridge") lamp.labels ≡ true) × IsThere home lamp))
    × (Memᴰ lamp (get_by_platform home (text "bridge"))
        ↔ ((lamp.platform ≡ text "bridge") × IsThere home lamp))
queries_lem_example = queries_lem home (text "bridge") lamp home-IsSound.0
