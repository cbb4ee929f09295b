-- ===== src/Automation/Evaluation.antt =====
-- crates/ha-automation/src/eval.rs: the evaluation of the conditions that hold no others, over the
-- state store. The logging is left out.
pub mod Loops
pub mod Matching
pub mod Thresholds
pub mod Windows
use homeassistant_rs.Base.{
  Bool, true, false, not, Option, none, some, List, [], ◌∷◌, ◌++◌, ◌==◌, nat_eq, list_eq, ok, err,
  ◌>>=◌, ltb, leb, any, if◌then◌else◌,
}
use homeassistant_rs.Base.Text.{Text, text}
use homeassistant_rs.Base.Map
use homeassistant_rs.Base.Map.{Map}
use homeassistant_rs.Base.Json.{Value, F64, f64_le, f64_ge, as_str}
use homeassistant_rs.Core.State.{State}
use homeassistant_rs.StateStore.{get, get_state}
use homeassistant_rs.Automation.Trigger.{ids, StateMatch, matches, NumericValue, literal}
use homeassistant_rs.Automation.Condition.{
  ConditionError, entity_not_found, invalid_state, NaiveTime, TimeSpec, fixed, WeekdaySpec,
  from_spec, weekday_beq, SunPosition, Offset, StateCondition, NumericStateCondition, TimeCondition,
  SunCondition, ZoneCondition, TemplateCondition, TriggerCondition,
}
use homeassistant_rs.Automation.Runtime.{Store, Instant, Moment, Runtime}
use homeassistant_rs.Automation.EvalContext.{
  ConditionResult, is_truthy, try_all, ok_or, any_regex, patterns_of, sun_attribute, with_offset,
  zone_name, to_template_context, json_value_to_string, parse_time, parse_number, EvalContext,
  ConditionResult,
}

-- `iter().any` over the weekdays, if there are some.
abbrev pub on_weekday : List WeekdaySpec → Moment → Bool
on_weekday [] current = true
on_weekday (w ∷ ws) current = any (λ spec. weekday_beq (from_spec spec) current.weekday) (w ∷ ws)

module _ (rt : Runtime) (store : Store) where
  unfoldable pub get_attribute_value : Text → Text → ConditionResult Text
  unfolding ok_or json_value_to_string get
  get_attribute_value entity_id attribute =
      ok_or (get store entity_id) (entity_not_found entity_id) >>= λ state.
      ok_or (Map.lookup attribute state.attributes)
        (invalid_state (text "Entity " ++ entity_id ++ text " missing attribute " ++ attribute))
      >>= λ value. ok (json_value_to_string rt value)

  unfoldable pub state_value : Text → ConditionResult Text
  unfolding ok_or get_state
  state_value entity_id = ok_or (get_state store entity_id) (entity_not_found entity_id)

  unfoldable pub resolve_numeric_value : NumericValue → ConditionResult F64
  unfolding state_value parse_number
  resolve_numeric_value (NumericValue.entity entity_id) = state_value entity_id >>= parse_number rt
  resolve_numeric_value (literal n) = ok n

  unfoldable pub resolve_time_spec : TimeSpec → ConditionResult NaiveTime
  unfolding state_value ok_or parse_time
  resolve_time_spec (TimeSpec.entity entity_id) = state_value entity_id >>= λ s.
      ok_or (parse_time rt s) (invalid_state (text "'" ++ s ++ text "' is not a valid time"))
  resolve_time_spec (fixed time) = ok time

  unfoldable pub matches_regex : Text → StateMatch → ConditionResult Bool
  unfolding any_regex
  matches_regex value pattern = any_regex rt.regex value (patterns_of pattern)

  -- The value that `eval_state` looks at.
  unfoldable pub checked_value : Option Text → Text → ConditionResult Text
  unfolding state_value get_attribute_value
  checked_value none entity_id = state_value entity_id
  checked_value (some attribute) entity_id = get_attribute_value entity_id attribute

  -- The body of the loop of `eval_state`.
  unfoldable pub state_holds : StateCondition → Text → ConditionResult Bool
  unfolding checked_value matches_regex matches
  state_holds c entity_id = checked_value c.attribute entity_id >>= λ value.
      if c.match_regex then matches_regex value c.state else ok (matches c.state value)

  unfoldable pub eval_state : StateCondition → EvalContext → ConditionResult Bool
  unfolding state_holds try_all ids
  eval_state c ctx = try_all (state_holds c) (ids c.entity_id)

  -- The text that `eval_numeric_state` parses.
  unfoldable pub numeric_text :
      Option Text → Option Text → EvalContext → Text → ConditionResult Text
  unfolding state_value get_attribute_value to_template_context
  numeric_text (some attribute) value_template ctx entity_id =
      get_attribute_value entity_id attribute
  numeric_text none (some value_template) ctx entity_id =
      elim (rt.render store value_template (to_template_context rt ctx)) [
        | ok s ↦ ok s
        | err e ↦ err (ConditionError.template e)
      ]
  numeric_text none none ctx entity_id = state_value entity_id

  -- The two thresholds: `value <= threshold` and `value >= threshold` end the loop with false.
  unfoldable pub passes_above : Option NumericValue → F64 → ConditionResult Bool
  unfolding resolve_numeric_value
  passes_above none value = ok true
  passes_above (some above) value =
      resolve_numeric_value above >>= λ threshold. ok (not (f64_le value threshold))

  unfoldable pub passes_below : Option NumericValue → F64 → ConditionResult Bool
  unfolding resolve_numeric_value
  passes_below none value = ok true
  passes_below (some below) value =
      resolve_numeric_value below >>= λ threshold. ok (not (f64_ge value threshold))

  -- The body of the loop of `eval_numeric_state`.
  unfoldable pub numeric_holds : NumericStateCondition → EvalContext → Text → ConditionResult Bool
  unfolding numeric_text parse_number passes_above passes_below
  numeric_holds c ctx entity_id = numeric_text c.attribute c.value_template ctx entity_id >>= λ s.
      parse_number rt s >>= λ value. passes_above c.above value >>= λ is_above.
      if is_above then passes_below c.below value else ok false

  unfoldable pub eval_numeric_state : NumericStateCondition → EvalContext → ConditionResult Bool
  unfolding numeric_holds try_all ids
  eval_numeric_state c ctx = try_all (numeric_holds c ctx) (ids c.entity_id)

  unfoldable pub is_after : Option TimeSpec → NaiveTime → ConditionResult Bool
  unfolding resolve_time_spec
  is_after none time = ok true
  is_after (some after) time = resolve_time_spec after >>= λ t. ok (not (ltb time t))

  unfoldable pub is_before : Option TimeSpec → NaiveTime → ConditionResult Bool
  unfolding resolve_time_spec
  is_before none time = ok true
  is_before (some before) time = resolve_time_spec before >>= λ t. ok (not (leb t time))

  unfoldable pub eval_time : TimeCondition → Moment → ConditionResult Bool
  unfolding is_after is_before from_spec
  eval_time c current =
      if on_weekday c.weekday current
      then (is_after c.after current.time >>= λ late_enough.
          if late_enough then is_before c.before current.time else ok false)
      else ok false

  -- The closure `get_sun_time`.
  unfoldable pub get_sun_time : State Value → SunPosition → ConditionResult Instant
  unfolding ok_or as_str
  get_sun_time sun event =
      ok_or
        (elim (Map.lookup (sun_attribute event) sun.attributes) [ none ↦ none | some v ↦ as_str v ])
        (invalid_state (text "sun.sun missing " ++ sun_attribute event ++ text " attribute"))
      >>= λ s. elim (rt.parse_from_rfc3339 s) [
        | ok t ↦ ok t
        | err e ↦ err (invalid_state (text "Invalid sun time: " ++ e))
      ]

  unfoldable pub sun_after :
      State Value → Option SunPosition → Option Offset → Instant → ConditionResult Bool
  unfolding get_sun_time
  sun_after sun none offset t = ok true
  sun_after sun (some position) offset t =
      get_sun_time sun position >>= λ at. ok (not (ltb t (with_offset at offset)))

  unfoldable pub sun_before :
      State Value → Option SunPosition → Option Offset → Instant → ConditionResult Bool
  unfolding get_sun_time
  sun_before sun none offset t = ok true
  sun_before sun (some position) offset t =
      get_sun_time sun position >>= λ at. ok (not (leb (with_offset at offset) t))

  unfoldable pub eval_sun : SunCondition → Moment → ConditionResult Bool
  unfolding ok_or sun_after sun_before get
  eval_sun c current =
      ok_or (get store (text "sun.sun")) (entity_not_found (text "sun.sun")) >>= λ sun.
      sun_after sun c.after c.after_offset current.instant >>= λ late_enough.
      if late_enough then sun_before sun c.before c.before_offset current.instant else ok false

  -- The body of the loop of `eval_zone`.
  unfoldable pub in_zone : Text → Text → ConditionResult Bool
  unfolding ok_or zone_name get
  in_zone zone entity_id = ok_or (get store entity_id) (entity_not_found entity_id) >>= λ state.
      ok (state.state == zone_name zone)

  unfoldable pub eval_zone : ZoneCondition → ConditionResult Bool
  unfolding in_zone try_all ids
  eval_zone c = try_all (in_zone c.zone) (ids c.entity_id)

  unfoldable pub eval_template : TemplateCondition → EvalContext → ConditionResult Bool
  unfolding is_truthy to_template_context
  eval_template c ctx = elim (rt.render store c.value_template (to_template_context rt ctx)) [
    | ok s ↦ ok (is_truthy s)
    | err e ↦ err (ConditionError.template e)
  ]

unfoldable pub eval_trigger : TriggerCondition → EvalContext → Bool
eval_trigger c ctx = elim ctx.trigger [
  | none ↦ false
  | some t ↦ elim t.id [ none ↦ false | some id ↦ id == c.id ]
]
