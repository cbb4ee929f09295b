-- ===== src/Core/State.antt =====
-- crates/ha-core/src/state.rs and the constants of lib.rs. `Json` stands for `serde_json::Value`, a
-- time for `DateTime<Utc>` as a number of ticks; `Utc::now()` is the argument `now`.
use homeassistant_rs.Base.{ℕ, Option, some, not, ◌==◌, nat_eq, list_eq, if◌then◌else◌}
use homeassistant_rs.Base.Text.{Text, text}
use homeassistant_rs.Base.Map.{Map}
use homeassistant_rs.Core.EntityId.{EntityId}
use homeassistant_rs.Core.Context.{Context}

abbrev pub Time : Type 0
Time = ℕ

abbrev pub max_state_length : ℕ
max_state_length = 255

abbrev pub state_unknown : Text
state_unknown = text "unknown"

pub record State (Json : Type 0) : Type 0 where
  pub entity_id : EntityId
  pub state : Text
  pub attributes : Map Text Json
  pub last_changed : Time
  pub last_updated : Time
  pub last_reported : Option Time
  pub context : Context

module _ {Json : Type 0} where
  unfoldable pub new : EntityId → Text → Map Text Json → Context → Time → State Json
  new entity_id state attributes context now = record {
    entity_id = entity_id;
    state = state;
    attributes = attributes;
    last_changed = now;
    last_updated = now;
    last_reported = some now;
    context = context;
  }

  unfoldable pub with_update : State Json → Text → Map Text Json → Context → Time → State Json
  with_update s new_state new_attributes context now =
      let state_changed = not (s.state == new_state) in
      record {
        entity_id = s.entity_id;
        state = new_state;
        attributes = new_attributes;
        last_changed = if state_changed then now else s.last_changed;
        last_updated = now;
        last_reported = some now;
        context = context;
      }
