-- ===== src/ConfigEntries/Manager/Tests.antt =====
-- The manager at concrete entries; a `serde_json::Value` and a `SetupContext` are texts here.
use homeassistant_rs.Base.{
  ◌≡◌, refl, none, some, List, [], ◌∷◌, arith, list_eq, nat_eq, option_eq, pair_eq, list_beq,
  if◌then◌else◌, ◌==◌,
}
use homeassistant_rs.Base.Text.{Text, text}
use homeassistant_rs.Base.Map
use homeassistant_rs.Base.IdSet
use homeassistant_rs.ConfigEntries.Lifecycle.{failed_unload, valid}
use homeassistant_rs.ConfigEntries.Entry.{
  ConfigEntry, ConfigEntryUpdate, with_unique_id, apply_state, apply_update,
}
use homeassistant_rs.ConfigEntries.Entry
use homeassistant_rs.ConfigEntries.Manager.{
  SetupResult, UnloadResult, ConfigEntries, new, set_context, index_entry, get, domain_ids,
}
use homeassistant_rs.ConfigEntries.Manager.Entries.{update}
use homeassistant_rs.ConfigEntries.Manager.Setup.{
  register_setup_handler, register_unload_handler, call_setup, call_unload, setup, unload,
}
use homeassistant_rs.ConfigEntries.Manager.Indexes.{IsIndexed, new-IsIndexed, index_entry-IsIndexed}
use homeassistant_rs.ConfigEntries.Manager.Outcomes.{setup_entry, setup_reply, setup_lem}
use homeassistant_rs.ConfigEntries.Manager.Unloading.{unload_entry, unload_reply, unload_lem}
use homeassistant_rs.ConfigEntries.Manager.Integrity.{IsFreeUpdate}
use homeassistant_rs.ConfigEntries.Manager.Stealing.{update_steals_unique_id}
use homeassistant_rs.ConfigEntries.Manager.Runs.{
  Call, setup_call, unload_call, reload_call, setup_all_call, run, Advances, run-Advances,
}

abbrev bridge : ConfigEntry Text
bridge = with_unique_id (Entry.new (text "1") 10 (text "hue") (text "Bridge")) (text "serial")

abbrev lamp : ConfigEntry Text
lamp = Entry.new (text "2") 11 (text "hue") (text "Lamp")

abbrev broken : ConfigEntry Text
broken = apply_state (Entry.new (text "3") 12 (text "cast") (text "Screen")) failed_unload none

abbrev on_setup : ConfigEntry Text → Text → SetupResult
on_setup e context = SetupResult.not_ready (text "offline")

abbrev on_unload : ConfigEntry Text → Text → UnloadResult
on_unload e context = UnloadResult.not_supported

abbrev start : ConfigEntries Text Text
start =
    register_unload_handler (text "hue") on_unload
      (register_setup_handler (text "hue") on_setup (set_context (text "handles") (new none)))

start-IsIndexed : IsIndexed start
unfolding register_unload_handler register_setup_handler set_context get IdSet.count new Map.insert
    domain_ids
start-IsIndexed =
    let i = new-IsIndexed {Json = Text} {Ctx = Text} none in
    record { keyed = i.keyed; domains = i.domains; owned = i.owned; found = i.found }

abbrev home : ConfigEntries Text Text
home = index_entry broken (index_entry lamp (index_entry bridge start))

one-IsIndexed : IsIndexed (index_entry bridge start)
unfolding register_unload_handler register_setup_handler set_context new get Entry.new
    with_unique_id Map.lookup
one-IsIndexed = index_entry-IsIndexed bridge start refl (λ d u h. refl) start-IsIndexed

two-IsIndexed : IsIndexed (index_entry lamp (index_entry bridge start))
unfolding register_unload_handler register_setup_handler set_context new get index_entry Entry.new
    with_unique_id Map.lookup Map.insert list_beq
two-IsIndexed =
    index_entry-IsIndexed lamp (index_entry bridge start) refl (λ d u h. ground arith) one-IsIndexed

home-IsIndexed : IsIndexed home
unfolding register_unload_handler register_setup_handler set_context new get index_entry Entry.new
    with_unique_id apply_state Map.lookup Map.insert list_beq
home-IsIndexed =
    index_entry-IsIndexed broken (index_entry lamp (index_entry bridge start)) refl
      (λ d u h. ground arith) two-IsIndexed

get-bridge : get home (text "1") ≡ some bridge
unfolding register_unload_handler register_setup_handler set_context new get index_entry Entry.new
    with_unique_id apply_state Map.lookup Map.insert list_beq
get-bridge = refl

get-lamp : get home (text "2") ≡ some lamp
unfolding register_unload_handler register_setup_handler set_context new get index_entry Entry.new
    with_unique_id apply_state Map.lookup Map.insert list_beq
get-lamp = refl

get-broken : get home (text "3") ≡ some broken
unfolding register_unload_handler register_setup_handler set_context new get index_entry Entry.new
    with_unique_id apply_state Map.lookup Map.insert list_beq
get-broken = refl

home_context : home.context ≡ some (text "handles")
unfolding register_unload_handler register_setup_handler set_context index_entry
home_context = refl

setup_lem_example :
    let (reply, t) = setup (text "1") home in
    let r = call_setup home bridge (text "handles") in
    (reply ≡ setup_reply r)
    × ((j : Text) → get t j ≡ (if text "1" == j then some (setup_entry r bridge) else get home j))
unfolding Entry.new with_unique_id valid
setup_lem_example =
    setup_lem (text "1") bridge (text "handles") home get-bridge refl home_context refl

unload_lem_example :
    let (reply, t) = unload (text "2") home in
    let r = call_unload home lamp (text "handles") in
    (reply ≡ unload_reply lamp.state r)
    × ((j : Text)
        → get t j ≡ (if text "2" == j then some (unload_entry lamp.state r lamp) else get home j))
unload_lem_example = unload_lem (text "2") lamp (text "handles") home get-lamp home_context

abbrev no_change : ConfigEntryUpdate Text
no_change = record {
  title = none;
  entry_data = none;
  options = none;
  unique_id = none;
  version = none;
  minor_version = none;
  pref_disable_new_entities = none;
  pref_disable_polling = none;
}

abbrev renamed : ConfigEntryUpdate Text
renamed = record no_change { title = some (text "Desk lamp") }

abbrev stealing : ConfigEntryUpdate Text
stealing = record no_change { unique_id = some (some (text "serial")) }

renamed-IsFree : IsFreeUpdate 20 (text "2") renamed home
unfolding Entry.new with_unique_id apply_update
renamed-IsFree e h d u o = ground (arith, get-lamp)

update_steals_unique_id_example : ¬ IsIndexed (update none 20 (text "2") stealing home).1
unfolding Entry.new with_unique_id
update_steals_unique_id_example =
    update_steals_unique_id none 20 stealing home (text "1") (text "2") bridge lamp (text "serial")
      home-IsIndexed get-bridge get-lamp (λ p. ground arith) refl refl refl

abbrev calls : List Call
calls =
    setup_all_call ∷ unload_call (text "1") ∷ setup_call (text "1") ∷ reload_call (text "2") ∷ []

run-Advances_example : Advances home (run calls home)
run-Advances_example = run-Advances calls home
