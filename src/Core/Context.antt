-- ===== src/Core/Context.antt =====
-- crates/ha-core/src/context.rs: who asked for a change, and which change led to which. The fresh
-- ULID of a new context is an argument.
use homeassistant_rs.Base.{Option, none, some}
use homeassistant_rs.Base.Text.{Text}

pub record Context : Type 0 where
  pub id : Text
  pub user_id : Option Text
  pub parent_id : Option Text

unfoldable pub new : Text → Context
new ulid = record { id = ulid; user_id = none; parent_id = none }

unfoldable pub with_id : Text → Context
with_id id = record { id = id; user_id = none; parent_id = none }

unfoldable pub with_user : Text → Text → Context
with_user ulid user_id = record { id = ulid; user_id = some user_id; parent_id = none }

unfoldable pub child : Text → Context → Context
child ulid c = record { id = ulid; user_id = c.user_id; parent_id = some c.id }

unfoldable pub child_with_user : Text → Context → Text → Context
child_with_user ulid c user_id = record { id = ulid; user_id = some user_id; parent_id = some c.id }
