-- ===== src/StateStore/Tests.antt =====
-- The state store at concrete calls; a `serde_json::Value` is a text here.
use homeassistant_rs.Base.{
  ◌≡◌, refl, List, true, false, none, some, [], ◌∷◌, if◌then◌else◌, ◌==◌, arith, list_eq, nat_eq,
  list_beq,
}
use homeassistant_rs.Base.Text.{Text, text, byte_len}
use homeassistant_rs.Base.Map
use homeassistant_rs.Base.IdSet
use homeassistant_rs.Core.EntityId.{EntityId, to_string}
use homeassistant_rs.Core.EntityId.Parsing.{IsValidId, from_str-ok_iff}
use homeassistant_rs.Core.EntityId.{
  from_str, is_valid_domain, is_valid_object_id, is_id_char, new as new_id,
}
use homeassistant_rs.Base.Text.{split, starts_with, ends_with, contains_text}
use homeassistant_rs.Core.Context.{Context}
use homeassistant_rs.Core.State.{State}
use homeassistant_rs.StateStore.{StateStore, new, set_internal, get, entity_ids}
use homeassistant_rs.StateStore.Lookup.{get-set_internal}
use homeassistant_rs.StateStore.Consistency.{IsConsistent}
use homeassistant_rs.StateStore.Journal.{replay, IsChained}
use homeassistant_rs.StateStore.Values.{IsTimed}
use homeassistant_rs.StateStore.Runs.{
  Call, set_call, remove_call, run, run-IsConsistent, run-IsJournaled,
}

abbrev lamp : EntityId
lamp = record { domain = text "light"; object_id = text "lamp" }

abbrev plug : EntityId
plug = record { domain = text "switch"; object_id = text "plug" }

abbrev nobody : Context
nobody = record { id = text "c"; user_id = none; parent_id = none }

lamp-IsValidId : IsValidId lamp
unfolding from_str new_id is_valid_domain is_valid_object_id is_id_char split starts_with ends_with
    contains_text
lamp-IsValidId = ((from_str-ok_iff (text "light.lamp") lamp).0 refl).0

plug-IsValidId : IsValidId plug
unfolding from_str new_id is_valid_domain is_valid_object_id is_id_char split starts_with ends_with
    contains_text
plug-IsValidId = ((from_str-ok_iff (text "switch.plug") plug).0 refl).0

abbrev calls : List (Call Text)
calls =
    set_call lamp (text "on") [] nobody false 1
    ∷ set_call plug (text "off") [] nobody false 2
    ∷ set_call lamp (text "on") [] nobody false 3
    ∷ remove_call plug nobody
    ∷ set_call lamp (text "off") [] nobody false 4
    ∷ []

abbrev after : StateStore Text
after = run new calls

after-IsConsistent : IsConsistent after
after-IsConsistent =
    run-IsConsistent calls
      (lamp-IsValidId, (plug-IsValidId, (lamp-IsValidId, (plug-IsValidId, (lamp-IsValidId, tt)))))

run-IsConsistent_example : IsConsistent after
run-IsConsistent_example =
    run-IsConsistent calls
      (lamp-IsValidId, (plug-IsValidId, (lamp-IsValidId, (plug-IsValidId, (lamp-IsValidId, tt)))))

run-IsJournaled_example :
    ((k : Text) → Map.lookup k (replay [] after.event_bus) ≡ get after k)
    × IsChained [] after.event_bus
run-IsJournaled_example = run-IsJournaled calls

abbrev lamp_state : State Text
lamp_state = record {
  entity_id = lamp;
  state = text "off";
  attributes = [];
  last_changed = 4;
  last_updated = 4;
  last_reported = some 4;
  context = nobody;
}

lamp-after : get after (to_string lamp) ≡ some lamp_state
unfolding run new get to_string Map.lookup Map.insert Map.remove Map.modify list_beq IdSet.remove
    byte_len
lamp-after = refl

three_events_and_two :
    (get after (text "switch.plug") ≡ none)
    × (entity_ids after (text "light") ≡ text "light.lamp" ∷ [])
    × (entity_ids after (text "switch") ≡ [])
unfolding run new get to_string Map.lookup Map.insert Map.remove Map.modify list_beq IdSet.remove
    byte_len entity_ids
three_events_and_two = (refl, refl, refl)

get-set_internal_example :
    let (v, s') = set_internal after plug (text "on") [] nobody true 5 in
    get s' (text "light.lamp")
    ≡ (if to_string plug == text "light.lamp" then some v else get after (text "light.lamp"))
get-set_internal_example =
    get-set_internal after plug (text "on") [] nobody true 5 (text "light.lamp")

new-IsTimed : IsTimed 0 (new {Json = Text})
unfolding new get Map.lookup
new-IsTimed = record { stamped = λ k v h. absurd (ground arith) }
