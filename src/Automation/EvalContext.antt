-- ===== src/Automation/EvalContext.antt =====
-- crates/ha-automation/src/eval.rs: the context of an evaluation, and the helpers and utility functions.
use homeassistant_rs.Base.{
  Bool, true, false, not, Option, none, some, List, [], ◌∷◌, ◌++◌, ◌==◌, nat_eq, list_eq, Result,
  ok, err, ◌>>=◌, any, or_else, unwrap_or, if◌then◌else◌,
}
use homeassistant_rs.Base.Text.{Text, text, trim, to_lowercase, starts_with_text, strip_prefix}
use homeassistant_rs.Base.Map
use homeassistant_rs.Base.Map.{Map}
use homeassistant_rs.Base.Json.{Value, null, bool, number, string, object, F64, from_map}
use homeassistant_rs.Automation.Trigger.{TriggerData, StateMatch}
use homeassistant_rs.Automation.Condition.{
  ConditionError, invalid_state, invalid_config, NaiveTime, SunPosition, sunrise, sunset, Offset,
}
use homeassistant_rs.Automation.Runtime.{Instant, Moment, Runtime, add_seconds}

pub record EvalContext : Type 0 where
  pub trigger : Option TriggerData
  pub variables : Map Text Value
  pub time_override : Option Moment

unfoldable pub new : EvalContext
new = record { trigger = none; variables = []; time_override = none }

unfoldable pub with_trigger : TriggerData → EvalContext
unfolding new
with_trigger t = record new { trigger = some t }

unfoldable pub with_var : Text → Value → EvalContext → EvalContext
with_var k value ctx = record ctx { variables = Map.insert k value ctx.variables }

unfoldable pub with_time : Moment → EvalContext → EvalContext
with_time time ctx = record ctx { time_override = some time }

-- `local_now` is `Local::now()`.
unfoldable pub now : Moment → EvalContext → Moment
now local_now ctx = unwrap_or ctx.time_override local_now

abbrev pub ConditionResult : Type 0 → Type 0
ConditionResult A = Result ConditionError A

-- Only characters of ASCII become one of these words, so `to_lowercase` is that of ASCII here.
unfoldable pub is_truthy : Text → Bool
is_truthy value =
    let trimmed = to_lowercase (trim value) in
    if trimmed == []
    then false
    else not (
        any (λ s. trimmed == s)
          (text "false" ∷ text "no" ∷ text "off" ∷ text "0" ∷ text "none" ∷ []))

-- The loops over entity ids: the first that fails or is false ends it.
unfoldable pub try_all : {A : Type 0} → (A → ConditionResult Bool) → List A → ConditionResult Bool
try_all f [] = ok true
try_all f (x ∷ xs) = let rest = try_all f xs in f x >>= λ holds. if holds then rest else ok false

unfoldable pub ok_or : {A : Type 0} → Option A → ConditionError → ConditionResult A
ok_or none e = err e
ok_or (some a) e = ok a

-- The loop of `matches_regex`.
unfoldable pub any_regex :
    (Text → Result Text (Text → Bool)) → Text → List Text → ConditionResult Bool
any_regex compile value [] = ok false
any_regex compile value (pattern ∷ patterns) =
    let rest = any_regex compile value patterns in
    elim (compile pattern) [
      | err e ↦ err (invalid_config (text "Invalid regex: " ++ e))
      | ok is_match ↦ if is_match value then ok true else rest
    ]

abbrev pub patterns_of : StateMatch → List Text
patterns_of (StateMatch.single p) = p ∷ []
patterns_of (StateMatch.list ps) = ps

abbrev pub sun_attribute : SunPosition → Text
sun_attribute sunrise = text "next_rising"
sun_attribute sunset = text "next_setting"

abbrev pub with_offset : Instant → Option Offset → Instant
with_offset t none = t
with_offset t (some offset) = add_seconds t offset

unfoldable pub zone_name : Text → Text
unfolding starts_with_text strip_prefix
zone_name zone =
    if starts_with_text zone (text "zone.")
    then unwrap_or (strip_prefix (text "zone.") zone) zone
    else zone

module _ (rt : Runtime) where
  unfoldable pub to_template_context : EvalContext → Value
  unfolding from_map
  to_template_context ctx =
      let base : Map Text Value = elim ctx.trigger [
        | none ↦ []
        | some t ↦ (text "trigger", rt.trigger_to_value t) ∷ []
      ] in
      object (from_map (Map.extend base ctx.variables))

  unfoldable pub json_value_to_string : Value → Text
  json_value_to_string (string s) = s
  json_value_to_string (number n) = rt.number_to_string n
  json_value_to_string (bool b) = if b then text "true" else text "false"
  json_value_to_string null = text "null"
  json_value_to_string value = rt.value_to_string value

  unfoldable pub parse_time : Text → Option NaiveTime
  parse_time s =
      or_else (rt.parse_naive_time s (text "%H:%M:%S")) (rt.parse_naive_time s (text "%H:%M"))

  unfoldable pub parse_number : Text → ConditionResult F64
  unfolding ok_or
  parse_number s =
      ok_or (rt.parse_f64 s) (invalid_state (text "'" ++ s ++ text "' is not a number"))
