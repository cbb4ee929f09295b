-- ===== src/Automation/Manager.antt =====
-- crates/ha-automation/src/automation.rs. `Steps` stands for the raw JSON of the actions, `Json` for the
-- variables; `ulid` is a fresh id and `now` is `Utc::now()`.
pub mod Keyed
use homeassistant_rs.Base.{
  ℕ, ◌+◌, ◌-◌, Bool, true, false, not, Option, none, some, List, [], ◌∷◌, ◌++◌, ◌==◌, nat_eq,
  list_eq, Result, ok, err, ltb, unwrap_or, length, is_some, if◌then◌else◌,
}
use homeassistant_rs.Base.Text.{Text, text}
use homeassistant_rs.Base.Map
use homeassistant_rs.Base.Map.{Map}
use homeassistant_rs.Core.State.{Time}
use homeassistant_rs.Automation.Trigger.{Trigger}
use homeassistant_rs.Automation.Condition.{Conditions}

-- The errors that the manager gives.
pub data AutomationError : Type 0 where
  not_found invalid_config : Text → AutomationError

pub data ExecutionMode : Type 0 where
  single restart : ExecutionMode
  queued parallel : ℕ → ExecutionMode

pub record TraceConfig : Type 0 where
  pub stored_traces : ℕ

abbrev pub default_stored_traces : ℕ
default_stored_traces = 5

pub record AutomationConfig (Json Steps : Type 0) : Type 0 where
  pub id : Option Text
  pub alias : Option Text
  pub description : Option Text
  pub triggers : List Trigger
  pub conditions : Conditions
  pub actions : Steps
  pub mode : ExecutionMode
  pub max : Option ℕ
  pub enabled : Bool
  pub variables : Json
  pub trace : Option TraceConfig

pub record Automation (Json Steps : Type 0) : Type 0 where
  pub id : Text
  pub alias : Option Text
  pub description : Option Text
  pub triggers : List Trigger
  pub conditions : Conditions
  pub actions : Steps
  pub mode : ExecutionMode
  pub enabled : Bool
  pub variables : Json
  pub last_triggered : Option Time
  pub current_runs : ℕ
  pub trace_config : TraceConfig

-- The match on the mode in `Automation::can_run`.
unfoldable pub has_room : ExecutionMode → ℕ → Bool
has_room single current_runs = current_runs == 0
has_room restart current_runs = true
has_room (queued max) current_runs = ltb current_runs max
has_room (parallel max) current_runs = ltb current_runs max

module _ {Json Steps : Type 0} where
  unfoldable pub from_config : Text → AutomationConfig Json Steps → Automation Json Steps
  from_config ulid config = record {
    id = unwrap_or config.id ulid;
    alias = config.alias;
    description = config.description;
    triggers = config.triggers;
    conditions = config.conditions;
    actions = config.actions;
    mode = config.mode;
    enabled = config.enabled;
    variables = config.variables;
    last_triggered = none;
    current_runs = 0;
    trace_config = unwrap_or config.trace (record { stored_traces = default_stored_traces });
  }

  unfoldable pub display_name : Automation Json Steps → Text
  display_name a = unwrap_or a.alias a.id

  unfoldable pub can_run : Automation Json Steps → Bool
  unfolding has_room
  can_run a = if not a.enabled then false else has_room a.mode a.current_runs

-- `AutomationManager`, which holds this map and nothing else.
abbrev pub AutomationManager : Type 0 → Type 0 → Type 0
AutomationManager Json Steps = Map Text (Automation Json Steps)

-- Each config comes with the id that it gets where it has none.
module _ {Json Steps : Type 0} where
  unfoldable pub load :
      List (Text × AutomationConfig Json Steps)
      → AutomationManager Json Steps
      → AutomationManager Json Steps
  unfolding from_config
  load [] m = m
  load ((ulid, config) ∷ configs) m =
      let a = from_config ulid config in load configs (Map.insert a.id a m)

  unfoldable pub get : Text → AutomationManager Json Steps → Option (Automation Json Steps)
  get id m = Map.lookup id m

  unfoldable pub all : AutomationManager Json Steps → List (Automation Json Steps)
  all m = Map.values m

  unfoldable pub count : AutomationManager Json Steps → ℕ
  count m = length m

  -- `get_mut(id).ok_or(NotFound)?`, a write through the reference, and a result.
  unfoldable pub change_found :
      {R : Type 0}
      → Option (Automation Json Steps)
      → Text
      → (Automation Json Steps → R)
      → (Automation Json Steps → Automation Json Steps)
      → AutomationManager Json Steps
      → Result AutomationError R × AutomationManager Json Steps
  change_found none id result f m = (err (not_found id), m)
  change_found (some a) id result f m = (ok (result a), Map.modify id f m)

  abbrev pub change :
      {R : Type 0}
      → Text
      → (Automation Json Steps → R)
      → (Automation Json Steps → Automation Json Steps)
      → AutomationManager Json Steps
      → Result AutomationError R × AutomationManager Json Steps
  change id result f m = change_found (Map.lookup id m) id result f m

  unfoldable pub enable :
      Text
      → AutomationManager Json Steps
      → Result AutomationError (Unit {0}) × AutomationManager Json Steps
  unfolding change_found
  enable id m = change id (λ _. tt) (λ a. record a { enabled = true }) m

  unfoldable pub disable :
      Text
      → AutomationManager Json Steps
      → Result AutomationError (Unit {0}) × AutomationManager Json Steps
  unfolding change_found
  disable id m = change id (λ _. tt) (λ a. record a { enabled = false }) m

  unfoldable pub toggle :
      Text
      → AutomationManager Json Steps
      → Result AutomationError Bool × AutomationManager Json Steps
  unfolding change_found
  toggle id m = change id (λ a. not a.enabled) (λ a. record a { enabled = not a.enabled }) m

  unfoldable pub remove_found :
      Option (Automation Json Steps)
      → Text
      → AutomationManager Json Steps
      → Result AutomationError (Automation Json Steps) × AutomationManager Json Steps
  remove_found none id m = (err (not_found id), m)
  remove_found (some a) id m = (ok a, Map.remove id m)

  unfoldable pub remove :
      Text
      → AutomationManager Json Steps
      → Result AutomationError (Automation Json Steps) × AutomationManager Json Steps
  unfolding remove_found
  remove id m = remove_found (Map.lookup id m) id m

  -- What follows the test whether the id is there.
  unfoldable pub add_checked :
      Bool
      → Automation Json Steps
      → AutomationManager Json Steps
      → Result AutomationError Text × AutomationManager Json Steps
  add_checked true a m =
      (err (invalid_config (text "Automation with ID " ++ a.id ++ text " already exists")), m)
  add_checked false a m = (ok a.id, Map.insert a.id a m)

  unfoldable pub add :
      Text
      → AutomationConfig Json Steps
      → AutomationManager Json Steps
      → Result AutomationError Text × AutomationManager Json Steps
  unfolding from_config add_checked
  add ulid config m = let a = from_config ulid config in add_checked (Map.contains_key a.id m) a m

  unfoldable pub mark_triggered :
      Text → Time → AutomationManager Json Steps → AutomationManager Json Steps
  mark_triggered id now m = Map.modify id (λ a. record a { last_triggered = some now }) m

  unfoldable pub increment_runs : Text → AutomationManager Json Steps → AutomationManager Json Steps
  increment_runs id m = Map.modify id (λ a. record a { current_runs = a.current_runs + 1 }) m

  unfoldable pub decrement_runs : Text → AutomationManager Json Steps → AutomationManager Json Steps
  decrement_runs id m = Map.modify id (λ a. record a { current_runs = a.current_runs - 1 }) m

  unfoldable pub reload :
      List (Text × AutomationConfig Json Steps)
      → AutomationManager Json Steps
      → AutomationManager Json Steps
  unfolding load
  reload configs m = load configs []
