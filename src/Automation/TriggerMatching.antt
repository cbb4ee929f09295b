-- ===== src/Automation/TriggerMatching.antt =====
-- crates/ha-automation/src/trigger_eval.rs: the tests by which a trigger passes or not, and the utility
-- functions. `None` from a test that does not pass is `false` here.
pub mod Crossing
pub mod States
pub mod Patterns
use homeassistant_rs.Base.{
  ℕ, ◌+◌, ◌%◌, ◌^◌, Bool, true, false, not, ◌&&◌, Option, none, some, List, [], ◌∷◌, ◌++◌, ◌==◌,
  nat_eq, nat_beq, list_eq, option_eq, Result, ok, err, ◌>>=◌, any, unwrap_or, if◌then◌else◌,
}
use homeassistant_rs.Base.Text.{Text, text, trim, strip_prefix, parse_uint}
use homeassistant_rs.Base.Json.{
  Value, null, bool, number, string, array, object, Items, nil, cons, Fields, end, field, F64,
  f64_lt, f64_eq, get_field, count_items, value_beq,
}
use homeassistant_rs.Automation.Trigger.{
  TriggerError, invalid_config, StateMatch, matches, StateTrigger, ZoneEvent, enter, leave,
}

abbrev pub TriggerResult : Type 0 → Type 0
TriggerResult A = Result TriggerError A

abbrev pub contains : List Text → Text → Bool
contains xs s = any (λ x. x == s) xs

-- `if let Some(v) = value { if set.contains(v) { return Ok(None) } }`.
abbrev pub is_allowed : List Text → Option Text → Bool
is_allowed excluded none = true
is_allowed excluded (some v) = not (contains excluded v)

-- `from` and `to`: without a constraint anything passes, with one there must be a value.
abbrev pub meets : Option StateMatch → Option Text → Bool
meets none value = true
meets (some wanted) none = false
meets (some wanted) (some value) = matches wanted value

abbrev pub is_none : {A : Type 0} → Option A → Bool
is_none none = true
is_none (some a) = false

-- The guards of `eval_state_trigger` after the values are known.
unfoldable pub state_passes : StateTrigger → Option Text → Option Text → Bool
unfolding matches
state_passes t old_value new_value =
    if not (is_allowed t.not_from old_value)
    then false
    else if not (is_allowed t.not_to new_value)
    then false
    else if not (meets t.from old_value)
    then false
    else if not (meets t.to new_value)
    then false
    else not (is_none t.from && is_none t.to && old_value == new_value)

-- `old_value.map(..).unwrap_or(false)`.
abbrev was : (F64 → Bool) → Option F64 → Bool
was test none = false
was test (some old) = test old

-- `crossed` of `eval_numeric_state_trigger`, for the thresholds `above` and `below`.
unfoldable pub crossed : Option F64 → Option F64 → Option F64 → F64 → Bool
unfolding f64_lt f64_eq
crossed (some above) (some below) old_value new_val =
    let in_range = λ (v : F64). f64_lt above v && f64_lt v below in
    in_range new_val && not (was in_range old_value)
crossed (some above) none old_value new_val =
    f64_lt above new_val && not (was (f64_lt above) old_value)
crossed none (some below) old_value new_val =
    f64_lt new_val below && not (was (λ old. f64_lt old below) old_value)
crossed none none none new_val = true
crossed none none (some old) new_val = not (f64_eq old new_val)

-- `matched` of `eval_zone_trigger`.
unfoldable pub zone_matched : ZoneEvent → Text → Option Text → Option Text → Bool
zone_matched enter zone old_zone new_zone = not (old_zone == some zone) && new_zone == some zone
zone_matched leave zone old_zone new_zone = old_zone == some zone && not (new_zone == some zone)

-- `&trigger.zone` without `zone.`.
unfoldable pub zone_name : Text → Text
unfolding strip_prefix
zone_name zone = unwrap_or (strip_prefix (text "zone.") zone) zone

-- The expected value may leave out fields of objects.
unfoldable mutual
  unfolding value_beq get_field count_items

  pub json_matches : Value → Value → Bool
  json_matches (object actual) (object expected) = fields_match actual expected
  json_matches (array actual) (array expected) =
      nat_beq (count_items actual) (count_items expected) && items_match actual expected
  json_matches actual (object expected) = value_beq actual (object expected)
  json_matches actual (array expected) = value_beq actual (array expected)
  json_matches actual null = value_beq actual null
  json_matches actual (bool b) = value_beq actual (bool b)
  json_matches actual (number n) = value_beq actual (number n)
  json_matches actual (string s) = value_beq actual (string s)

  pub fields_match : Fields → Fields → Bool
  fields_match actual end = true
  fields_match actual (field k v expected) =
      (elim (get_field k actual) [ none ↦ false | some a ↦ json_matches a v ])
      && fields_match actual expected

  -- `zip`, which ends with the shorter.
  pub items_match : Items → Items → Bool
  items_match actual nil = true
  items_match nil (cons e expected) = true
  items_match (cons a actual) (cons e expected) = json_matches a e && items_match actual expected

unfoldable pub divides : Text → ℕ → Option ℕ → TriggerResult Bool
divides divisor_str value none =
    err (invalid_config (text "Invalid time pattern divisor: " ++ divisor_str))
divides divisor_str value (some divisor) =
    if divisor == 0
    then err (invalid_config (text "Time pattern divisor cannot be 0"))
    else ok (value % divisor == 0)

unfoldable pub is_target : Text → ℕ → Option ℕ → TriggerResult Bool
is_target pattern value none = err (invalid_config (text "Invalid time pattern: " ++ pattern))
is_target pattern value (some target) = ok (value == target)

abbrev pub after_wildcard : Text → ℕ → Option Text → TriggerResult Bool
after_wildcard pattern value (some divisor_str) =
    divides divisor_str value (parse_uint (2 ^ 32) divisor_str)
after_wildcard pattern value none = is_target pattern value (parse_uint (2 ^ 32) pattern)

-- `matches_time_pattern`.
unfoldable pub matches_time_pattern : Text → ℕ → TriggerResult Bool
unfolding trim strip_prefix divides is_target parse_uint
matches_time_pattern untrimmed value =
    let pattern = trim untrimmed in
    if pattern == text "*"
    then ok true
    else after_wildcard pattern value (strip_prefix (text "/") pattern)
