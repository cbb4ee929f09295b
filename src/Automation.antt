-- ===== src/Automation.antt =====
-- crates/ha-automation: triggers' data, conditions and their evaluation.
pub mod Trigger
pub mod Condition
pub mod Runtime
pub mod EvalContext
pub mod Evaluation
pub mod Evaluator
pub mod TriggerMatching
pub mod TriggerContext
pub mod TriggerTimes
pub mod TriggerEvaluation
pub mod Manager
pub mod Tests
