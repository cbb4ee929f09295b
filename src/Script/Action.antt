-- ===== src/Script/Action.antt =====
-- crates/ha-script/src/action.rs. The aliases, which nothing reads, are left out.
use homeassistant_rs.Base.{ℕ, Bool, Option, List}
use homeassistant_rs.Base.Text.{Text}
use homeassistant_rs.Base.Map.{Map}
use homeassistant_rs.Base.Json.{Value}
use homeassistant_rs.Automation.Condition.{Condition, Conditions}

pub record Target : Type 0 where
  pub entity_id : List Text
  pub device_id : List Text
  pub area_id : List Text
  pub floor_id : List Text
  pub label_id : List Text

pub record ServiceAction : Type 0 where
  pub service : Text
  pub target : Option Target
  pub service_data : Map Text Value
  pub response_variable : Option Text
  pub enabled : Bool

pub data DelaySpec : Type 0 where
  template : Text → DelaySpec
  components : ℕ → ℕ → ℕ → ℕ → DelaySpec

pub record DelayAction : Type 0 where
  pub delay : DelaySpec
  pub enabled : Bool

-- The triggers to wait for are not read.
pub record WaitForTriggerAction : Type 0 where
  pub timeout : Option Text
  pub continue_on_timeout : Bool
  pub enabled : Bool

pub record WaitTemplateAction : Type 0 where
  pub wait_template : Text
  pub timeout : Option Text
  pub continue_on_timeout : Bool
  pub enabled : Bool

pub record VariablesAction : Type 0 where
  pub variables : Map Text Value
  pub enabled : Bool

pub data ChooseConditions : Type 0 where
  template : Text → ChooseConditions
  list : Conditions → ChooseConditions

pub data RepeatCount : Type 0 where
  number : ℕ → RepeatCount
  template : Text → RepeatCount

pub record ConditionAction : Type 0 where
  pub condition : Condition
  pub enabled : Bool

pub record StopAction : Type 0 where
  pub stop : Text
  pub error : Bool
  pub enabled : Bool

pub record EventAction : Type 0 where
  pub event : Text
  pub event_data : Map Text Value
  pub enabled : Bool

pub record SceneAction : Type 0 where
  pub scene : Text
  pub enabled : Bool

-- A sequence holds JSON values, which `execute` parses one by one. It stands here as what
-- `serde_json::from_value` makes of each: an action, or the text of the error. The last field of an
-- action with actions inside is `enabled`.
mutual
  pub data Action : Type 0 where
    service : ServiceAction → Action
    delay : DelayAction → Action
    wait_for_trigger : WaitForTriggerAction → Action
    wait_template : WaitTemplateAction → Action
    variables : VariablesAction → Action
    choose : ChooseOptions → Actions → Bool → Action
    branch : ChooseConditions → Actions → Actions → Bool → Action
    repeat : RepeatConfig → Bool → Action
    sequence : Actions → Bool → Action
    parallel : Branches → Bool → Action
    condition : ConditionAction → Action
    stop : StopAction → Action
    event : EventAction → Action
    scene : SceneAction → Action

  pub data Actions : Type 0 where
    nil : Actions
    cons : Action → Actions → Actions
    invalid : Text → Actions → Actions

  pub data ChooseOptions : Type 0 where
    no_option : ChooseOptions
    option : ChooseConditions → Actions → ChooseOptions → ChooseOptions

  pub data RepeatConfig : Type 0 where
    count : RepeatCount → Actions → RepeatConfig
    for_each : Value → Actions → RepeatConfig
    while_all until_all : Conditions → Actions → RepeatConfig

  -- The branches of a parallel action: an array is a sequence, another value is a sequence of one.
  pub data Branches : Type 0 where
    no_branch : Branches
    fork : Actions → Branches → Branches

-- `Vec::is_empty`.
abbrev pub is_empty : Actions → Bool
is_empty nil = Bool.true
is_empty _ = Bool.false

abbrev pub append : Actions → Actions → Actions
append nil bs = bs
append (cons a rest) bs = cons a (append rest bs)
append (invalid e rest) bs = invalid e (append rest bs)
