-- ===== src/Registries.antt =====
-- crates/ha-registries/src: the registries of areas, floors and labels, and what they share.
pub mod Naming
pub mod Fresh
pub mod Indexing
pub mod AreaRegistry
pub mod FloorRegistry
pub mod LabelRegistry
mod Tests
