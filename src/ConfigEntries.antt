-- ===== src/ConfigEntries.antt =====
-- crates/ha-config-entries: configuration entries, their lifecycle and their manager.
pub mod Lifecycle
pub mod Entry
pub mod Manager
