-- ===== src/Automation/Trigger.antt =====
-- crates/ha-automation/src/trigger.rs: the data of a trigger that fired, and the specifications that
-- triggers and conditions share.
use homeassistant_rs.Base.{ℕ, Bool, Option, none, some, List, [], ◌∷◌, ◌==◌, nat_eq, list_eq, any}
use homeassistant_rs.Base.Text.{Text, text}
use homeassistant_rs.Base.Map
use homeassistant_rs.Base.Map.{Map}
use homeassistant_rs.Base.Json.{F64, Value}
use homeassistant_rs.Core.State.{Time}

pub record TriggerData : Type 0 where
  pub id : Option Text
  pub platform : Text
  pub variables : Map Text Value
  pub triggered_at : Time

unfoldable pub new : Text → Time → TriggerData
new platform now = record { id = none; platform = platform; variables = []; triggered_at = now }

unfoldable pub with_id : Text → TriggerData → TriggerData
with_id id t = record t { id = some id }

unfoldable pub with_var : Text → Value → TriggerData → TriggerData
with_var k value t = record t { variables = Map.insert k value t.variables }

pub data EntityIdSpec : Type 0 where
  single : Text → EntityIdSpec
  list : List Text → EntityIdSpec

unfoldable pub ids : EntityIdSpec → List Text
ids (single id) = id ∷ []
ids (list all) = all

pub data StateMatch : Type 0 where
  single : Text → StateMatch
  list : List Text → StateMatch

unfoldable pub matches : StateMatch → Text → Bool
matches (single s) state = s == state
matches (list options) state = any (λ s. s == state) options

pub data NumericValue : Type 0 where
  literal : F64 → NumericValue
  entity : Text → NumericValue

pub data TriggerError : Type 0 where
  invalid_config template entity_not_found : Text → TriggerError

-- The durations `for` are not read by the evaluation.
pub record StateTrigger : Type 0 where
  pub id : Option Text
  pub entity_id : EntityIdSpec
  pub from : Option StateMatch
  pub to : Option StateMatch
  pub attribute : Option Text
  pub for_duration : Option ℕ
  pub not_from : List Text
  pub not_to : List Text

pub record EventTrigger : Type 0 where
  pub id : Option Text
  pub event_type : Text
  pub event_data : Option Value
  -- `EventContextFilter`, which holds a `user_id` and nothing else.
  pub context : Option (Option Text)

-- `TimeSpec` of the triggers; a time is the number of nanoseconds after midnight.
pub data TimeSpec : Type 0 where
  fixed : ℕ → TimeSpec
  entity : Text → TimeSpec

pub record TimeTrigger : Type 0 where
  pub id : Option Text
  pub at : TimeSpec

pub record TimePatternTrigger : Type 0 where
  pub id : Option Text
  pub hours : Option Text
  pub minutes : Option Text
  pub seconds : Option Text

pub record NumericStateTrigger : Type 0 where
  pub id : Option Text
  pub entity_id : EntityIdSpec
  pub attribute : Option Text
  pub above : Option NumericValue
  pub below : Option NumericValue
  pub for_duration : Option ℕ
  pub value_template : Option Text

pub record TemplateTrigger : Type 0 where
  pub id : Option Text
  pub value_template : Text
  pub for_duration : Option ℕ

pub data ZoneEvent : Type 0 where
  enter leave : ZoneEvent

pub record ZoneTrigger : Type 0 where
  pub id : Option Text
  pub entity_id : EntityIdSpec
  pub zone : Text
  pub event : ZoneEvent

pub data SunEvent : Type 0 where
  sunrise sunset : SunEvent

-- An offset in seconds: its sign and its size.
pub record SunTrigger : Type 0 where
  pub id : Option Text
  pub event : SunEvent
  pub offset : Option (Bool × ℕ)

pub data HassEvent : Type 0 where
  start shutdown : HassEvent

pub record HomeassistantTrigger : Type 0 where
  pub id : Option Text
  pub event : HassEvent

pub record WebhookTrigger : Type 0 where
  pub id : Option Text
  pub webhook_id : Text
  pub allowed_methods : List Text
  pub local_only : Bool

pub data Trigger : Type 0 where
  state : StateTrigger → Trigger
  event : EventTrigger → Trigger
  time : TimeTrigger → Trigger
  time_pattern : TimePatternTrigger → Trigger
  numeric_state : NumericStateTrigger → Trigger
  template : TemplateTrigger → Trigger
  zone : ZoneTrigger → Trigger
  sun : SunTrigger → Trigger
  homeassistant : HomeassistantTrigger → Trigger
  webhook : WebhookTrigger → Trigger

unfoldable pub trigger_id : Trigger → Option Text
trigger_id (Trigger.state t) = t.id
trigger_id (Trigger.event t) = t.id
trigger_id (Trigger.time t) = t.id
trigger_id (Trigger.time_pattern t) = t.id
trigger_id (Trigger.numeric_state t) = t.id
trigger_id (Trigger.template t) = t.id
trigger_id (Trigger.zone t) = t.id
trigger_id (Trigger.sun t) = t.id
trigger_id (Trigger.homeassistant t) = t.id
trigger_id (Trigger.webhook t) = t.id

unfoldable pub platform : Trigger → Text
platform (Trigger.state t) = text "state"
platform (Trigger.event t) = text "event"
platform (Trigger.time t) = text "time"
platform (Trigger.time_pattern t) = text "time_pattern"
platform (Trigger.numeric_state t) = text "numeric_state"
platform (Trigger.template t) = text "template"
platform (Trigger.zone t) = text "zone"
platform (Trigger.sun t) = text "sun"
platform (Trigger.homeassistant t) = text "homeassistant"
platform (Trigger.webhook t) = text "webhook"
