-- ===== src/Core/Event.antt =====
-- crates/ha-core/src/event.rs. The present, which a new event is stamped with, is an argument.
use homeassistant_rs.Base.{Bool, ◌==◌, list_eq, nat_eq}
use homeassistant_rs.Base.Text.{Text, text}
use homeassistant_rs.Core.Context.{Context}
use homeassistant_rs.Core.State.{Time}

-- The struct `EventType` holds a string and nothing else.
abbrev pub EventType : Type 0
EventType = Text

abbrev pub match_all : EventType
match_all = text "*"

unfoldable pub is_match_all : EventType → Bool
is_match_all event_type = event_type == match_all

pub data EventOrigin : Type 0 where
  local remote : EventOrigin

pub record Event (T : Type 0) : Type 0 where
  pub event_type : EventType
  pub event_data : T
  pub origin : EventOrigin
  pub time_fired : Time
  pub context : Context

module _ {T : Type 0} where
  unfoldable pub new : EventType → T → Context → Time → Event T
  new event_type event_data context now = record {
    event_type = event_type;
    event_data = event_data;
    origin = local;
    time_fired = now;
    context = context;
  }

  unfoldable pub with_origin : EventOrigin → Event T → Event T
  with_origin origin event = record event { origin = origin }
