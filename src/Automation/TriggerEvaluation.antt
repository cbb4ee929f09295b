-- ===== src/Automation/TriggerEvaluation.antt =====
-- crates/ha-automation/src/trigger_eval.rs: the triggers that fire on an event. `utc_now` stamps the data of
-- a trigger.
pub mod Firing
pub mod Numeric
use homeassistant_rs.Base.{
  not, Option, none, some, ◌==◌, nat_eq, list_eq, option_eq, ok, ◌>>=◌, if◌then◌else◌,
}
use homeassistant_rs.Base.Text.{Text, text}
use homeassistant_rs.Base.Json.{Value, string, object, end, from_f64}
use homeassistant_rs.Core.EntityId.{to_string}
use homeassistant_rs.Core.State.{Time}
use homeassistant_rs.Core.Event.{Event}
use homeassistant_rs.Automation.Trigger
use homeassistant_rs.Automation.Trigger.{
  TriggerData, with_id, with_var, TriggerError, invalid_config, entity_not_found, EntityIdSpec, ids,
  NumericValue, literal, StateTrigger, EventTrigger, TimeSpec, fixed, TimeTrigger,
  TimePatternTrigger, NumericStateTrigger, TemplateTrigger, ZoneEvent, enter, leave, ZoneTrigger,
  SunEvent, sunrise, sunset, SunTrigger, HassEvent, HomeassistantTrigger, trigger_id, platform,
}
use homeassistant_rs.Automation.Runtime.{Store, Runtime, StateChangedData}
use homeassistant_rs.Automation.EvalContext.{is_truthy}
use homeassistant_rs.Automation.TriggerMatching.{
  TriggerResult, state_passes, crossed, zone_matched, zone_name, json_matches,
}
use homeassistant_rs.Automation.TriggerContext.{
  state_changed, map_err, with_id_of, with_attribute, option_value, map_state, user_matches,
  data_matches, change_data, watched_value, numeric_value, watched_change, resolve_threshold,
}

module _ (rt : Runtime) (utc_now : Time) where
  unfoldable pub create_time_trigger_data : Trigger.Trigger → TriggerData
  unfolding Trigger.new with_id_of platform trigger_id
  create_time_trigger_data t = with_id_of (trigger_id t) (Trigger.new (platform t) utc_now)

  unfoldable pub state_data : StateTrigger → StateChangedData → Option TriggerData
  unfolding Trigger.new watched_value state_passes change_data with_id_of with_attribute to_string
  state_data t change =
      if state_passes t (map_state (watched_value rt t.attribute) change.old_state)
        (map_state (watched_value rt t.attribute) change.new_state)
      then some (
          with_attribute t.attribute (
            with_id_of t.id (
              change_data rt (to_string change.entity_id) change
                (Trigger.new (text "state") utc_now))))
      else none

  unfoldable pub eval_state_trigger :
      StateTrigger → Event Value → TriggerResult (Option TriggerData)
  unfolding watched_change state_data
  eval_state_trigger t event = watched_change rt t.entity_id event >>= λ found.
      ok (elim found [ none ↦ none | some change ↦ state_data t change ])

  unfoldable pub eval_event_trigger : EventTrigger → Event Value → Option TriggerData
  unfolding Trigger.new json_matches with_id_of with_var
  eval_event_trigger t event =
      if not (event.event_type == t.event_type)
      then none
      else if not (data_matches t.event_data event.event_data)
      then none
      else if not (user_matches t.context event.context.user_id)
      then none
      else some (
          with_id_of t.id (
            with_var (text "event") event.event_data (
              with_var (text "event_type") (string t.event_type)
                (Trigger.new (text "event") utc_now))))

  unfoldable pub eval_homeassistant_trigger :
      HomeassistantTrigger → Event Value → Option TriggerData
  unfolding Trigger.new with_id_of
  eval_homeassistant_trigger t event =
      let expected : Text = elim t.event [
        | HassEvent.shutdown ↦ text "homeassistant_stop"
        | HassEvent.start ↦ text "homeassistant_start"
      ] in
      if event.event_type == expected
      then some (with_id_of t.id (Trigger.new (text "homeassistant") utc_now))
      else none

  unfoldable pub zone_data : ZoneTrigger → StateChangedData → Option TriggerData
  unfolding Trigger.new zone_matched zone_name change_data with_id_of with_var to_string
  zone_data t change =
      if zone_matched t.event (zone_name t.zone) (map_state (λ s. some s.state) change.old_state)
        (map_state (λ s. some s.state) change.new_state)
      then some (
          with_id_of t.id (
            change_data rt (to_string change.entity_id) change (
              with_var (text "event")
                (string (elim t.event [ enter ↦ text "enter" | leave ↦ text "leave" ]))
                (with_var (text "zone") (string t.zone) (Trigger.new (text "zone") utc_now)))))
      else none

  unfoldable pub eval_zone_trigger : ZoneTrigger → Event Value → TriggerResult (Option TriggerData)
  unfolding watched_change zone_data
  eval_zone_trigger t event = watched_change rt t.entity_id event >>= λ found.
      ok (elim found [ none ↦ none | some change ↦ zone_data t change ])

module _ (rt : Runtime) (store : Store) (utc_now : Time) where
  unfoldable pub numeric_data :
      NumericStateTrigger → StateChangedData → TriggerResult (Option TriggerData)
  unfolding Trigger.new numeric_value resolve_threshold crossed change_data with_id_of with_var
      from_f64 to_string
  numeric_data t change = elim (map_state (numeric_value rt t.attribute) change.new_state) [
    | none ↦ ok none
    | some new_val ↦ resolve_threshold rt store t.above >>= λ above.
        resolve_threshold rt store t.below >>= λ below. ok (
          if crossed above below (map_state (numeric_value rt t.attribute) change.old_state) new_val
          then some (
              with_id_of t.id (
                with_var (text "above") (option_value above) (
                  with_var (text "below") (option_value below) (
                    change_data rt (to_string change.entity_id) change
                      (Trigger.new (text "numeric_state") utc_now)))))
          else none)
  ]

  unfoldable pub eval_numeric_state_trigger :
      NumericStateTrigger → Event Value → TriggerResult (Option TriggerData)
  unfolding watched_change numeric_data
  eval_numeric_state_trigger t event = watched_change rt t.entity_id event >>= λ found. elim found [
    | none ↦ ok none
    | some change ↦ numeric_data t change
  ]

  -- `TemplateEngine::render` renders with no variables.
  unfoldable pub eval_template_trigger :
      TemplateTrigger → Event Value → TriggerResult (Option TriggerData)
  unfolding Trigger.new map_err is_truthy with_id_of
  eval_template_trigger t event =
      if not (event.event_type == state_changed)
      then ok none
      else (map_err TriggerError.template (rt.render store t.value_template (object end))
          >>= λ result. ok (
              if is_truthy result
              then some (with_id_of t.id (Trigger.new (text "template") utc_now))
              else none))

  unfoldable pub evaluate : Trigger.Trigger → Event Value → TriggerResult (Option TriggerData)
  unfolding eval_state_trigger eval_event_trigger eval_numeric_state_trigger
      eval_homeassistant_trigger eval_zone_trigger eval_template_trigger
  evaluate (Trigger.Trigger.state t) event = eval_state_trigger rt utc_now t event
  evaluate (Trigger.Trigger.event t) event = ok (eval_event_trigger rt utc_now t event)
  evaluate (Trigger.Trigger.numeric_state t) event = eval_numeric_state_trigger t event
  evaluate (Trigger.Trigger.homeassistant t) event =
      ok (eval_homeassistant_trigger rt utc_now t event)
  evaluate (Trigger.Trigger.zone t) event = eval_zone_trigger rt utc_now t event
  evaluate (Trigger.Trigger.template t) event = eval_template_trigger t event
  evaluate (Trigger.Trigger.time t) event = ok none
  evaluate (Trigger.Trigger.time_pattern t) event = ok none
  evaluate (Trigger.Trigger.sun t) event = ok none
  evaluate (Trigger.Trigger.webhook t) event = ok none
