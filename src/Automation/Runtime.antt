-- ===== src/Automation/Runtime.antt =====
-- What the evaluation of conditions and the execution of scripts use of code that is not modelled:
-- `TemplateEngine::render_with_context` (MiniJinja, over the store), and functions of regex, chrono,
-- serde_json and the standard library. An instant is the number of its nanoseconds after the earliest
-- `DateTime`.
use homeassistant_rs.Base.{ℕ, ◌+◌, ◌-◌, ◌*◌, ◌%◌, Bool, Option, Result}
use homeassistant_rs.Base.Text.{Text}
use homeassistant_rs.Base.Json.{F64, Number, Value}
use Prim.Native.Nat.{◌/◌}
use homeassistant_rs.Core.EntityId.{EntityId}
use homeassistant_rs.Core.State.{State}
use homeassistant_rs.StateStore.{StateStore}
use homeassistant_rs.Automation.Trigger.{TriggerData}
use homeassistant_rs.Automation.Condition.{NaiveTime, Weekday, Offset, later, earlier}

abbrev pub Store : Type 0
Store = StateStore Value

abbrev pub Instant : Type 0
Instant = ℕ

-- A `DateTime<Local>` with the time of the day and the weekday that it shows.
pub record Moment : Type 0 where
  pub instant : Instant
  pub time : NaiveTime
  pub weekday : Weekday

-- `StateChangedData` of crates/ha-core/src/lib.rs.
pub record StateChangedData : Type 0 where
  pub entity_id : EntityId
  pub old_state : Option (State Value)
  pub new_state : Option (State Value)

pub record Runtime : Type 0 where
  -- `render_with_context`, or the error's text.
  pub render : Store → Text → Value → Result Text Text
  -- `str::parse` to `f64`, and `Number::as_f64`.
  pub parse_f64 : Text → Option F64
  pub as_f64 : Number → Option F64
  -- `Duration::from_secs_f64` of what is not negative, in nanoseconds; `none` where it panics.
  pub from_secs_f64 : F64 → Option ℕ
  -- `Regex::new`, then `is_match`.
  pub regex : Text → Result Text (Text → Bool)
  -- `NaiveTime::parse_from_str(s, format)` and `DateTime::parse_from_rfc3339`.
  pub parse_naive_time : Text → Text → Option NaiveTime
  pub parse_from_rfc3339 : Text → Result Text Instant
  -- `to_string` of a number, an array or an object.
  pub number_to_string : Number → Text
  pub value_to_string : Value → Text
  -- The local date, as the number of a day, and the local time of an instant.
  pub local : Instant → ℕ × NaiveTime
  -- `serde_json::to_value` of a state, and the data of a `state_changed` event.
  pub state_to_value : Option (State Value) → Value
  pub state_changed_from_value : Value → Result Text StateChangedData
  -- `serde_json::to_value` of a trigger, and `serde_json::from_str`.
  pub trigger_to_value : TriggerData → Value
  pub from_str : Text → Result Text Value

-- `t += Duration::seconds(offset)`; the panic past the ends of `DateTime` is not modelled.
unfoldable pub add_seconds : Instant → Offset → Instant
add_seconds t (later n) = t + n * 1_000_000_000
add_seconds t (earlier n) = t - n * 1_000_000_000

-- `Timelike` of a time of the day.
unfoldable pub hour : NaiveTime → ℕ
hour t = t / 3_600_000_000_000

unfoldable pub minute : NaiveTime → ℕ
minute t = t / 60_000_000_000 % 60

unfoldable pub second : NaiveTime → ℕ
second t = t / 1_000_000_000 % 60
