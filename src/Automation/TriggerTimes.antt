-- ===== src/Automation/TriggerTimes.antt =====
-- crates/ha-automation/src/trigger_eval.rs: the triggers that fire at a time.
use homeassistant_rs.Base.{
  Bool, false, not, ◌&&◌, none, some, ◌++◌, ◌==◌, nat_eq, list_eq, option_eq, ok, ◌>>=◌,
  if◌then◌else◌,
}
use homeassistant_rs.Base.Text.{Text, text}
use homeassistant_rs.Base.Map
use homeassistant_rs.Base.Map.{Map}
use homeassistant_rs.Base.Json.{as_str}
use homeassistant_rs.StateStore.{get}
use homeassistant_rs.Automation.Trigger
use homeassistant_rs.Automation.Trigger.{
  TriggerData, with_id, with_var, TriggerError, invalid_config, entity_not_found, EntityIdSpec, ids,
  NumericValue, literal, StateTrigger, EventTrigger, TimeSpec, fixed, TimeTrigger,
  TimePatternTrigger, NumericStateTrigger, TemplateTrigger, ZoneEvent, enter, leave, ZoneTrigger,
  SunEvent, sunrise, sunset, SunTrigger, HassEvent, HomeassistantTrigger, trigger_id, platform,
}
use homeassistant_rs.Automation.Condition.{NaiveTime}
use homeassistant_rs.Automation.Runtime.{
  Store, Moment, Runtime, Instant, add_seconds, hour, minute, second,
}
use homeassistant_rs.Automation.EvalContext.{parse_time}
use homeassistant_rs.Automation.TriggerMatching.{TriggerResult, matches_time_pattern}
use homeassistant_rs.Automation.TriggerContext.{
  ok_or, map_err, signed, matches_optional, state_value,
}

module _ (rt : Runtime) (store : Store) where
  unfoldable pub target_time : TimeSpec → TriggerResult NaiveTime
  unfolding state_value ok_or parse_time
  target_time (TimeSpec.entity entity_id) = state_value rt store entity_id >>= λ s.
      ok_or (parse_time rt s) (invalid_config (text "'" ++ s ++ text "' is not a valid time"))
  target_time (fixed t) = ok t

  unfoldable pub check_time_trigger : TimeTrigger → Moment → TriggerResult Bool
  unfolding target_time hour minute second
  check_time_trigger t current = target_time t.at >>= λ target. ok (
      hour current.time == hour target
      && minute current.time == minute target
      && second current.time == second target)

  unfoldable pub check_sun_trigger : SunTrigger → Moment → TriggerResult Bool
  unfolding ok_or map_err get as_str add_seconds hour minute
  check_sun_trigger t current =
      let name : Text = elim t.event [
        | sunrise ↦ text "next_rising"
        | sunset ↦ text "next_setting"
      ] in
      ok_or (get store (text "sun.sun")) (entity_not_found (text "sun.sun")) >>= λ sun.
      ok_or (elim (Map.lookup name sun.attributes) [ none ↦ none | some v ↦ as_str v ])
        (invalid_config (text "sun.sun missing " ++ name ++ text " attribute"))
      >>= λ s.
          map_err (λ e. invalid_config (text "Invalid sun time: " ++ e)) (rt.parse_from_rfc3339 s)
          >>= λ at.
              let target : Instant = elim t.offset [
                | none ↦ at
                | some offset ↦ add_seconds at (signed offset)
              ] in
              let (date, target_time_of_day) = rt.local target in
              ok (
                (rt.local current.instant).0 == date
                && hour current.time == hour target_time_of_day
                && minute current.time == minute target_time_of_day)

unfoldable pub check_time_pattern_trigger : TimePatternTrigger → Moment → TriggerResult Bool
unfolding matches_time_pattern hour minute second
check_time_pattern_trigger t current = matches_optional t.hours (hour current.time) >>= λ on_hour.
    if not on_hour
    then ok false
    else (matches_optional t.minutes (minute current.time) >>= λ on_minute.
        if not on_minute
        then ok false
        else (matches_optional t.seconds (second current.time) >>= λ on_second. ok on_second))

unfoldable pub should_fire_at_time : Runtime → Store → Trigger.Trigger → Moment → TriggerResult Bool
unfolding check_time_trigger check_time_pattern_trigger check_sun_trigger
should_fire_at_time rt store (Trigger.Trigger.time t) current =
    check_time_trigger rt store t current
should_fire_at_time rt store (Trigger.Trigger.time_pattern t) current =
    check_time_pattern_trigger t current
should_fire_at_time rt store (Trigger.Trigger.sun t) current = check_sun_trigger rt store t current
should_fire_at_time rt store _ current = ok false
