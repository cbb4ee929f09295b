-- ===== src/Core.antt =====
-- crates/ha-core: the types that the other crates share.
pub mod EntityId
pub mod Context
pub mod State
pub mod ServiceCall
pub mod Event
