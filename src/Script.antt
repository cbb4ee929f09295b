-- ===== src/Script.antt =====
-- crates/ha-script: the actions of scripts and their execution.
pub mod Action
pub mod Context
pub mod Machine
pub mod Durations
pub mod Templates
pub mod Steps
pub mod Executor
pub mod Tests
