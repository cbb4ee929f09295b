-- ===== src/Automation/Condition.antt =====
-- crates/ha-automation/src/condition.rs. A `NaiveTime` is the number of its nanoseconds after
-- midnight; an offset in seconds is its sign and its size.
use homeassistant_rs.Base.{ℕ, Bool, Option, List, ◌==◌, nat_eq}
use homeassistant_rs.Base.Text.{Text}
use homeassistant_rs.Base.Json.{Value}
use homeassistant_rs.Automation.Trigger.{EntityIdSpec, StateMatch, NumericValue}

pub data ConditionError : Type 0 where
  invalid_config template entity_not_found invalid_state : Text → ConditionError

abbrev pub NaiveTime : Type 0
NaiveTime = ℕ

pub data TimeSpec : Type 0 where
  fixed : NaiveTime → TimeSpec
  entity : Text → TimeSpec

pub data WeekdaySpec : Type 0 where
  mon tue wed thu fri sat sun : WeekdaySpec

-- `chrono::Weekday`.
pub data Weekday : Type 0 where
  mon tue wed thu fri sat sun : Weekday

-- `impl From<WeekdaySpec> for Weekday`.
unfoldable pub from_spec : WeekdaySpec → Weekday
from_spec WeekdaySpec.mon = Weekday.mon
from_spec WeekdaySpec.tue = Weekday.tue
from_spec WeekdaySpec.wed = Weekday.wed
from_spec WeekdaySpec.thu = Weekday.thu
from_spec WeekdaySpec.fri = Weekday.fri
from_spec WeekdaySpec.sat = Weekday.sat
from_spec WeekdaySpec.sun = Weekday.sun

abbrev pub weekday_number : Weekday → ℕ
weekday_number Weekday.mon = 0
weekday_number Weekday.tue = 1
weekday_number Weekday.wed = 2
weekday_number Weekday.thu = 3
weekday_number Weekday.fri = 4
weekday_number Weekday.sat = 5
weekday_number Weekday.sun = 6

-- `==` of two weekdays.
abbrev pub weekday_beq : Weekday → Weekday → Bool
weekday_beq a b = weekday_number a == weekday_number b

pub data SunPosition : Type 0 where
  sunrise sunset : SunPosition

pub data Offset : Type 0 where
  later earlier : ℕ → Offset

pub record StateCondition : Type 0 where
  pub entity_id : EntityIdSpec
  pub state : StateMatch
  pub attribute : Option Text
  pub for_duration : Option ℕ
  pub match_regex : Bool

pub record NumericStateCondition : Type 0 where
  pub entity_id : EntityIdSpec
  pub attribute : Option Text
  pub above : Option NumericValue
  pub below : Option NumericValue
  pub value_template : Option Text

pub record TimeCondition : Type 0 where
  pub after : Option TimeSpec
  pub before : Option TimeSpec
  pub weekday : List WeekdaySpec

pub record SunCondition : Type 0 where
  pub after : Option SunPosition
  pub after_offset : Option Offset
  pub before : Option SunPosition
  pub before_offset : Option Offset

pub record ZoneCondition : Type 0 where
  pub entity_id : EntityIdSpec
  pub zone : Text

pub record TemplateCondition : Type 0 where
  pub value_template : Text

pub record TriggerCondition : Type 0 where
  pub id : Text

pub record DeviceCondition : Type 0 where
  pub device_id : Text
  pub domain : Text
  pub condition_type : Text
  pub extra : Value

-- The records `AndCondition`, `OrCondition` and `NotCondition` hold their one field here.
mutual
  pub data Condition : Type 0 where
    state : StateCondition → Condition
    numeric_state : NumericStateCondition → Condition
    time : TimeCondition → Condition
    sun : SunCondition → Condition
    zone : ZoneCondition → Condition
    template : TemplateCondition → Condition
    trigger : TriggerCondition → Condition
    and or : Conditions → Condition
    not : Condition → Condition
    device : DeviceCondition → Condition

  pub data Conditions : Type 0 where
    nil : Conditions
    cons : Condition → Conditions → Conditions
