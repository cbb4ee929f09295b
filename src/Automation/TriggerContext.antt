-- ===== src/Automation/TriggerContext.antt =====
-- crates/ha-automation/src/trigger_eval.rs: what the evaluation of a trigger reads of an event and of the
-- store, and the data that it builds.
use homeassistant_rs.Base.{
  ℕ, Bool, true, false, not, Option, none, some, ◌++◌, ◌==◌, nat_eq, list_eq, option_eq, Result, ok,
  err, ◌>>=◌, if◌then◌else◌,
}
use homeassistant_rs.Base.Text.{Text, text}
use homeassistant_rs.Base.Map
use homeassistant_rs.Base.Map.{Map}
use homeassistant_rs.Base.Json.{Value, null, number, string, F64, from_f64}
use homeassistant_rs.Core.EntityId.{to_string}
use homeassistant_rs.Core.State.{State}
use homeassistant_rs.Core.Event.{Event}
use homeassistant_rs.StateStore.{get_state}
use homeassistant_rs.Automation.Trigger.{
  TriggerData, with_id, with_var, TriggerError, invalid_config, entity_not_found, EntityIdSpec, ids,
  NumericValue, literal,
}
use homeassistant_rs.Automation.Condition.{Offset, later, earlier}
use homeassistant_rs.Automation.Runtime.{Store, Runtime, StateChangedData}
use homeassistant_rs.Automation.EvalContext.{json_value_to_string}
use homeassistant_rs.Automation.TriggerMatching.{
  TriggerResult, contains, json_matches, matches_time_pattern,
}

abbrev pub state_changed : Text
state_changed = text "state_changed"

unfoldable pub ok_or : {A : Type 0} → Option A → TriggerError → TriggerResult A
ok_or none e = err e
ok_or (some a) e = ok a

unfoldable pub map_err : {A : Type 0} → (Text → TriggerError) → Result Text A → TriggerResult A
map_err f (ok a) = ok a
map_err f (err e) = err (f e)

-- `if let Some(id) = &trigger.id { data = data.with_id(id) }`.
unfoldable pub with_id_of : Option Text → TriggerData → TriggerData
unfolding with_id
with_id_of none t = t
with_id_of (some id) t = with_id id t

unfoldable pub with_attribute : Option Text → TriggerData → TriggerData
unfolding with_var
with_attribute none t = t
with_attribute (some attribute) t = with_var (text "attribute") (string attribute) t

abbrev pub option_value : Option F64 → Value
option_value none = null
option_value (some f) = from_f64 f

abbrev pub map_state : {A : Type 0} → (State Value → Option A) → Option (State Value) → Option A
map_state f none = none
map_state f (some s) = f s

abbrev pub signed : Bool × ℕ → Offset
signed (true, n) = later n
signed (false, n) = earlier n

abbrev pub matches_optional : Option Text → ℕ → TriggerResult Bool
matches_optional none value = ok true
matches_optional (some pattern) value = matches_time_pattern pattern value

abbrev pub user_matches : Option (Option Text) → Option Text → Bool
user_matches (some (some expected_user)) user_id = user_id == some expected_user
user_matches _ user_id = true

abbrev pub data_matches : Option Value → Value → Bool
data_matches none actual = true
data_matches (some expected) actual = json_matches actual expected

module _ (rt : Runtime) where
  -- The data that the triggers on state changes share.
  unfoldable pub change_data : Text → StateChangedData → TriggerData → TriggerData
  unfolding with_var
  change_data entity_id change t = with_var (text "to_state") (rt.state_to_value change.new_state) (
      with_var (text "from_state") (rt.state_to_value change.old_state)
        (with_var (text "entity_id") (string entity_id) t))

  -- The value of `eval_state_trigger`, of the attribute or the state.
  unfoldable pub watched_value : Option Text → State Value → Option Text
  unfolding json_value_to_string
  watched_value none s = some s.state
  watched_value (some attribute) s = elim (Map.lookup attribute s.attributes) [
    | none ↦ none
    | some v ↦ some (json_value_to_string rt v)
  ]

  -- `json_to_f64`.
  unfoldable pub json_to_f64 : Value → Option F64
  json_to_f64 (number n) = rt.as_f64 n
  json_to_f64 (string s) = rt.parse_f64 s
  json_to_f64 _ = none

  -- `get_numeric_value`.
  unfoldable pub numeric_value : Option Text → State Value → Option F64
  unfolding json_to_f64
  numeric_value none s = rt.parse_f64 s.state
  numeric_value (some attribute) s = elim (Map.lookup attribute s.attributes) [
    | none ↦ none
    | some v ↦ json_to_f64 v
  ]

  -- The head of the three functions on state changes: the change, if its entity is watched.
  unfoldable pub watched_change :
      EntityIdSpec → Event Value → TriggerResult (Option StateChangedData)
  unfolding map_err ids to_string
  watched_change spec event =
      if not (event.event_type == state_changed)
      then ok none
      else (map_err (λ e. invalid_config (text "Invalid state change data: " ++ e))
            (rt.state_changed_from_value event.event_data)
          >>= λ change.
              ok (if contains (ids spec) (to_string change.entity_id) then some change else none))

module _ (rt : Runtime) (store : Store) where
  unfoldable pub state_value : Text → TriggerResult Text
  unfolding ok_or get_state
  state_value entity_id = ok_or (get_state store entity_id) (entity_not_found entity_id)

  unfoldable pub resolve_numeric_value : NumericValue → TriggerResult F64
  unfolding state_value ok_or
  resolve_numeric_value (NumericValue.entity entity_id) = state_value entity_id >>= λ s.
      ok_or (rt.parse_f64 s) (invalid_config (text "'" ++ s ++ text "' is not a number"))
  resolve_numeric_value (literal n) = ok n

  -- `.map(resolve).transpose()?`.
  unfoldable pub resolve_threshold : Option NumericValue → TriggerResult (Option F64)
  unfolding resolve_numeric_value
  resolve_threshold none = ok none
  resolve_threshold (some v) = resolve_numeric_value v >>= λ f. ok (some f)
