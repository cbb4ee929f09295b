-- ===== src/Automation/Tests.antt =====
-- Conditions at concrete states. A number is written as one digit, which stands for its bits, or
-- as "nan"; a template is rendered to itself.
use homeassistant_rs.Base.{
  ◌-◌, true, false, ◌≡◌, refl, Option, none, some, [], ◌∷◌, ok, err, ◌↔◌, All, list_beq, ◌==◌,
  list_eq, nat_eq, if◌then◌else◌,
}
use homeassistant_rs.Base.Text.{Text, text, trim_end, trim, to_lowercase}
use homeassistant_rs.Base.Map.{lookup}
use homeassistant_rs.Base.Json.{Value, string, F64, f64_le, f64_lt, is_nan}
use homeassistant_rs.Core.State.{State}
use homeassistant_rs.StateStore.{get}
use homeassistant_rs.Automation.Trigger.{ids, EntityIdSpec, StateMatch}
use homeassistant_rs.Core.Event.{Event, EventOrigin}
use homeassistant_rs.Core.EntityId.{to_string}
use homeassistant_rs.Automation.Trigger
use homeassistant_rs.Automation.Runtime.{StateChangedData}
use homeassistant_rs.Automation.TriggerMatching.{crossed, matches_time_pattern}
use homeassistant_rs.Automation.TriggerMatching.Patterns.{matches_time_pattern_star}
use homeassistant_rs.Automation.TriggerContext.{watched_value}
use homeassistant_rs.Automation.TriggerEvaluation.{eval_state_trigger, eval_numeric_state_trigger}
use homeassistant_rs.Automation.TriggerEvaluation.Firing.{Fires, eval_state_trigger_refires}
use homeassistant_rs.Automation.Manager.{AutomationConfig, ExecutionMode}
use homeassistant_rs.Automation.Condition.{
  StateCondition, NumericStateCondition, TimeCondition, WeekdaySpec, fixed, Condition, Conditions,
  nil, cons, Weekday,
}
use homeassistant_rs.Automation.Runtime.{Store, Moment, Runtime}
use homeassistant_rs.Automation.EvalContext
use homeassistant_rs.Automation.Evaluation.{eval_state, eval_numeric_state, eval_time}
use homeassistant_rs.Automation.Evaluation.Matching.{eval_state-true_iff, Has}
use homeassistant_rs.Automation.Evaluation.Thresholds.{
  eval_numeric_state-true_iff, eval_numeric_state_nan, plain, Lies,
}
use homeassistant_rs.Automation.TriggerEvaluation.Numeric.{
  Crosses, eval_numeric_state_trigger-Fires_iff,
}
use homeassistant_rs.Automation.Evaluation.Windows.{IsOn, IsFrom, IsUntil, eval_time-true_iff}
use homeassistant_rs.Automation.Evaluator.{evaluate}
use homeassistant_rs.Automation.Evaluator.Algebra.{negated, evaluate-de_morgan}

abbrev nan : F64
nan = 0x7FF8000000000000

abbrev digit : Text → Option F64
digit (c ∷ []) = some (c - 48)
digit s = if s == text "nan" then some nan else none

abbrev pub plain_runtime : Runtime
plain_runtime = record {
  render = λ store s vars. ok s;
  parse_f64 = digit;
  as_f64 = λ n. none;
  from_secs_f64 = λ n. some n;
  regex = λ pattern. err pattern;
  parse_naive_time = λ s format. none;
  parse_from_rfc3339 = λ s. err s;
  number_to_string = λ n. [];
  value_to_string = λ v. [];
  local = λ t. (0, t);
  state_to_value = λ s. Value.null;
  state_changed_from_value = λ v. err [];
  trigger_to_value = λ t. Value.null;
  from_str = λ s. ok (string s);
}

abbrev with_state : Text → Text → State Value
with_state object_id value = record {
  entity_id = record { domain = text "sensor"; object_id = object_id };
  state = value;
  attributes = [];
  last_changed = 0;
  last_updated = 0;
  last_reported = none;
  context = record { id = text "c"; user_id = none; parent_id = none };
}

abbrev pub small_store : Store
small_store = record {
  states =
      (text "sensor.a", with_state (text "a") (text "5"))
      ∷ (text "sensor.b", with_state (text "b") (text "nan"))
      ∷ [];
  domain_index = [];
  event_bus = [];
}

abbrev pub monday : Moment
monday = record { instant = 1000; time = 700; weekday = Weekday.mon }

abbrev on_a : StateCondition
on_a = record {
  entity_id = EntityIdSpec.single (text "sensor.a");
  state = StateMatch.list (text "4" ∷ text "5" ∷ []);
  attribute = none;
  for_duration = none;
  match_regex = false;
}

abbrev number_of : Text → NumericStateCondition
number_of id = record {
  entity_id = EntityIdSpec.single id;
  attribute = none;
  above = none;
  below = none;
  value_template = none;
}

abbrev window : TimeCondition
window = record {
  after = some (fixed 600);
  before = some (fixed 800);
  weekday = WeekdaySpec.sun ∷ WeekdaySpec.mon ∷ [];
}

abbrev pair : Conditions
pair =
    cons (Condition.state on_a)
      (cons (Condition.template (record { value_template = text "off" })) nil)

eval_state-true_iff_example :
    (eval_state plain_runtime small_store on_a EvalContext.new ≡ ok true)
    ↔ All (Has small_store on_a.state) (text "sensor.a" ∷ [])
unfolding ids
eval_state-true_iff_example =
    eval_state-true_iff plain_runtime small_store on_a EvalContext.new refl refl

eval_state_runs : eval_state plain_runtime small_store on_a EvalContext.new ≡ ok true
unfolding eval_state lookup list_beq
eval_state_runs = refl

eval_numeric_state-true_iff_example :
    (eval_numeric_state plain_runtime small_store
        (plain (number_of (text "sensor.a")) (some 3) none)
        EvalContext.new
      ≡ ok true)
    ↔ All (Lies plain_runtime small_store (some 3) none) (text "sensor.a" ∷ [])
unfolding ids
eval_numeric_state-true_iff_example =
    eval_numeric_state-true_iff plain_runtime small_store (number_of (text "sensor.a"))
      EvalContext.new (some 3) none

numeric_runs :
    eval_numeric_state plain_runtime small_store
      (plain (number_of (text "sensor.a")) (some 5) none)
      EvalContext.new
    ≡ ok false
unfolding eval_numeric_state lookup list_beq f64_le
numeric_runs = refl

eval_numeric_state_nan_example :
    eval_numeric_state plain_runtime small_store
      (plain (number_of (text "sensor.b")) (some 3) (some 4))
      EvalContext.new
    ≡ ok true
unfolding ids get lookup list_beq is_nan
eval_numeric_state_nan_example =
    eval_numeric_state_nan plain_runtime small_store (number_of (text "sensor.b")) EvalContext.new
      (some 3) (some 4) ((with_state (text "b") (text "nan"), nan, refl, refl, refl), tt)

eval_time-true_iff_example : (eval_time plain_runtime small_store window monday ≡ ok true) ↔ (
    IsOn monday.weekday window.weekday
    × IsFrom plain_runtime small_store window.after monday.time
    × IsUntil plain_runtime small_store window.before monday.time)
eval_time-true_iff_example = eval_time-true_iff plain_runtime small_store window monday

eval_time_runs : eval_time plain_runtime small_store window monday ≡ ok true
unfolding eval_time
eval_time_runs = refl

evaluate-de_morgan_example :
    (evaluate plain_runtime small_store monday (Condition.not (Condition.and pair)) EvalContext.new
      ≡ evaluate plain_runtime small_store monday (Condition.or (negated pair)) EvalContext.new)
    × (evaluate plain_runtime small_store monday (Condition.not (Condition.or pair)) EvalContext.new
        ≡ evaluate plain_runtime small_store monday (Condition.and (negated pair)) EvalContext.new)
evaluate-de_morgan_example =
    evaluate-de_morgan plain_runtime small_store monday EvalContext.new pair

evaluate_runs :
    evaluate plain_runtime small_store monday (Condition.not (Condition.and pair)) EvalContext.new
    ≡ ok true
unfolding evaluate lookup list_beq to_lowercase trim
evaluate_runs = refl

crossed_runs : crossed (some 3) none (some 2) 4 ≡ true
unfolding crossed
crossed_runs = refl

matches_time_pattern_star_example :
    matches_time_pattern (text "*/5") 10
    ≡ err (Trigger.TriggerError.invalid_config (text "Invalid time pattern: */5"))
unfolding trim_end
matches_time_pattern_star_example = matches_time_pattern_star (text "5") 10

five : matches_time_pattern (text "/5") 10 ≡ ok true
unfolding matches_time_pattern list_beq
five = refl

abbrev on_five : Trigger.StateTrigger
on_five = record {
  id = none;
  entity_id = EntityIdSpec.single (text "sensor.a");
  from = none;
  to = some (StateMatch.single (text "5"));
  attribute = none;
  for_duration = none;
  not_from = [];
  not_to = [];
}

abbrev kept_five : StateChangedData
kept_five = record {
  entity_id = record { domain = text "sensor"; object_id = text "a" };
  old_state = some (with_state (text "a") (text "5"));
  new_state = some (with_state (text "a") (text "5"));
}

abbrev reading : Runtime
reading = record plain_runtime { state_changed_from_value = λ v. ok kept_five }

abbrev five_event : Event Value
five_event = record {
  event_type = text "state_changed";
  event_data = Value.null;
  origin = EventOrigin.local;
  time_fired = 0;
  context = record { id = text "c"; user_id = none; parent_id = none };
}

eval_state_trigger_refires_example : Fires (eval_state_trigger reading 0 on_five five_event)
unfolding ids list_beq to_string watched_value Trigger.matches
eval_state_trigger_refires_example =
    eval_state_trigger_refires reading 0 on_five (StateMatch.single (text "5")) (text "5")
      five_event kept_five
      (record { kind = refl; reads = refl; watched = refl; before = refl; after = refl })
      (record {
        no_attribute = refl;
        no_from = refl;
        to_wanted = refl;
        is_wanted = refl;
        no_not_from = refl;
        no_not_to = refl;
      })

abbrev over_four : Trigger.NumericStateTrigger
over_four = record {
  id = none;
  entity_id = EntityIdSpec.single (text "sensor.a");
  attribute = none;
  above = some (Trigger.literal 4);
  below = none;
  for_duration = none;
  value_template = none;
}

abbrev risen : StateChangedData
risen = record {
  entity_id = record { domain = text "sensor"; object_id = text "a" };
  old_state = some (with_state (text "a") (text "nan"));
  new_state = some (with_state (text "a") (text "5"));
}

abbrev rising : Runtime
rising = record plain_runtime { state_changed_from_value = λ v. ok risen }

eval_numeric_state_trigger-Fires_iff_example :
    Fires (eval_numeric_state_trigger rising small_store 0 over_four five_event)
    ↔ Crosses rising over_four (some 4) none five_event
eval_numeric_state_trigger-Fires_iff_example =
    eval_numeric_state_trigger-Fires_iff rising small_store 0 over_four (some 4) none five_event tt
      refl refl

five_starts : Fires (eval_numeric_state_trigger rising small_store 0 over_four five_event)
unfolding eval_numeric_state_trigger ids list_beq to_string f64_lt
five_starts = tt

abbrev blank : AutomationConfig Value Value
blank = record {
  id = some (text "lamp");
  alias = none;
  description = none;
  triggers = [];
  conditions = nil;
  actions = Value.null;
  mode = ExecutionMode.single;
  max = none;
  enabled = true;
  variables = Value.null;
  trace = none;
}
