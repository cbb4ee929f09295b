-- ===== src/Lib.antt =====
-- The core of homeassistant-rs, a Rust implementation of the Home Assistant core: entity ids,
-- states, events, services, config entries, registered entities, areas, floors, labels,
-- automations and scripts.
--
-- How the parts interact: an integration is a config entry. `ConfigEntries` sets it up by calling
-- the handler of its domain; the handler registers services with the `ServiceRegistry` and writes
-- states to the `StateStore`, which fires an event on the `EventBus` for each write; callbacks
-- and channels of the bus carry the events on. The entities of an integration are registered with
-- the `EntityRegistry`, which finds them by unique id, device, config entry, area, label and
-- platform; `AreaRegistry`, `FloorRegistry` and `LabelRegistry` have the areas, floors and labels
-- that those refer to. The `AutomationEngine` gets the events of the bus, asks the triggers of
-- each enabled automation whether they fire, and then evaluates its conditions over the state
-- store and runs its actions, a script, which calls services and fires events in turn. Every
-- state is under an `EntityId`, and every change has a `Context`.
--
-- Which file models which part:
--
-- - Base and its children: the standard library of Rust as far as the parts use it. Text has
--   strings, Int the signed integers, Json has the values of `serde_json` and the order of `f64`,
--   Map has the hash maps, IdSet has the hash sets of ids, Sort has the sorting and `dedup` of a
--   vector, Results has `Result` and `?`, Equality has `PartialEq` as an instance argument, Tests
--   and Lists have Boolean tests and iterator methods on the native numbers.
-- - Core/EntityId: crates/ha-core/src/entity_id.rs; `new`, `from_str`, `to_string` (the `Display`
--   instance), `is_valid_domain` and `is_valid_object_id` have the names of the source. Grammar
--   has the grammars of the two names, Split has the splitting at dots, Parsing has the parser.
-- - Core/Context, Core/State, Core/Event, Core/ServiceCall: context.rs, state.rs, event.rs and
--   service_call.rs of crates/ha-core/src, each struct as a record with the fields of the source
--   (`data` is `event_data` and, in an entry, `entry_data`).
-- - StateStore: crates/ha-state-store/src/lib.rs. `set_internal` is `set_with_force` and the
--   private function of that name; its branches are `report` and `change`. The bus is a journal
--   of the events that were fired. Lookup, Consistency, Values, Queries, Runs and Journal have
--   the proofs.
-- - EventBus: crates/ha-event-bus/src/lib.rs, with Typed for `TypedEventReceiver`. Delivery has
--   the proofs on `fire`, Totals and Listeners those on registration and removal.
-- - ServiceRegistry: crates/ha-service-registry/src/lib.rs. Keys has the invariant of the
--   registry, Calls the proofs on `call`, Domains those on `unregister_domain`, Listing those on
--   `domains` and `all_services`.
-- - ConfigEntries/Lifecycle: crates/ha-config-entries/src/state_machine.rs and the enum of the
--   states in entry.rs; Graph has the diagram of the source as a step relation, Delay has
--   `calculate_retry_delay`.
-- - ConfigEntries/Entry: crates/ha-config-entries/src/entry.rs.
-- - ConfigEntries/Manager: crates/ha-config-entries/src/manager.rs. Entries has loading, saving,
--   adding, updating and removing, Setup has setting up and unloading; Indexes, Integrity and
--   Stealing have the proofs on the indexes, Outcomes and Unloading those on what one call does,
--   Lawful, Modify, Operations and Runs those on any sequence of calls.
-- - EntityRegistry: crates/ha-registries/src/entity_registry.rs. Entry has the entries, Grouping
--   the indexes by the value of a field, Operations has updating and removing, Creation has
--   `get_or_create`; Indexes has the invariant, Indexing, Integrity, Registration, Adoption,
--   Restoring and Stealing the proofs on the operations, Queries those on the queries.
-- - Registries: the registries of areas, floors and labels in crates/ha-registries/src. Naming
--   has the functions that area_registry.rs, floor_registry.rs and label_registry.rs have in
--   common, Fresh the proofs on the search for a free id, Indexing those on the indexes, which
--   EntityRegistry uses too. AreaRegistry is area_registry.rs, with Integrity, Updating, Clearing
--   and Runs for its invariant; FloorRegistry is floor_registry.rs, with Levels for its index by
--   level; LabelRegistry is label_registry.rs, with Removing for the removal of a label.
-- - Automation: crates/ha-automation/src. Trigger and Condition have the data of trigger.rs and
--   condition.rs, Runtime the code that they call outside of the repository. EvalContext,
--   Evaluation and Evaluator are eval.rs; the `eval_` functions have the names of the source.
--   TriggerMatching, TriggerContext, TriggerTimes and TriggerEvaluation are trigger_eval.rs, and
--   Manager is automation.rs. The children of Evaluation, Evaluator, TriggerMatching and
--   TriggerEvaluation have the proofs.
-- - Script: crates/ha-script/src. Action has the data of action.rs; Context, Durations,
--   Templates, Steps and Executor are executor.rs, where `execute` is `ScriptExecutor::execute`,
--   Steps has the actions without actions inside and Executor the others. Machine has what the
--   executor works on. Proceeding says which actions can change what, Sequencing, Waiting,
--   Looping and Contexts have the proofs on sequences, waits, repeats and the context, Rounds
--   those on the loops of a repeat.
-- - AutomationEngine: crates/ha-server/src/automation_engine.rs. Interleaving has the runs as
--   tasks that begin, and finish or panic, in any order, Runs has the run of one automation.
--
-- State is passed explicitly: a method that takes `&self` and changes the inside is a function to
-- its result and the new state. What was written before an error stays written. A panic of
-- `Duration::from_secs_f64` is a failure of its own: it ends a parallel action before its later
-- branches, and the task of a run before the count of runs is taken back.
--
-- A text is a list of Unicode scalar values, and `byte_len` is its length in UTF-8. Numbers are
-- natural numbers; `u32` and `u64` arithmetic that may wrap has its remainder written out.
--
-- A hash map is an association list. Its iteration order is the order of insertion here, which no
-- theorem relies on; a theorem on what iteration gives speaks of membership, of counts or of two
-- iterations of one map.
--
-- Code outside of the repository is a parameter. `Runtime` has what conditions and triggers use
-- of it: the templates of minijinja, the parser of `f64`, regular expressions, dates of chrono
-- and parsed JSON. `Machine` has what a script acts on: the world, with a service registry and a
-- bus in it, and a clock that `sleep` advances. `Unicode` has the tables of the standard library
-- for letters and lower case, where a registry of names uses them. `Json` is `serde_json::Value`
-- and is compared by `Eq` where the source compares it; `Ctx` is the `SetupContext`; `Broadcast`
-- is `tokio::sync::broadcast`; `World` is all that a callback or a handler can read and change.
-- The present, fresh ULIDs and the outcome of a read or a write of a file are arguments.
--
-- Not modelled: tasks that interleave inside one method (each method runs from its start to its
-- end, the lock of a config entry is free, no lock is poisoned), what a callback does to the bus
-- that calls it, logging, the random part of the retry delay, `generate_entity_id` and the
-- filling in of attributes of the entity registry, and the other crates. Of automations and
-- scripts: the parser of an action or of a configuration is given by its result, dates do not
-- overflow, and the loop in which the engine receives events and its shutdown are left out, as is
-- script.rs.
--
-- Loops of the modelled code are recursions on a list or on a number of rounds. The search for a
-- free id has as many rounds as there are entries, which is proved to be enough. Its counter is
-- an `i32` in the source and does not overflow here. A loop with a condition goes on for at most
-- 10,000 rounds, as in the source. The wait for a template looks again each 100 ms until its time
-- is over; its recursion is on a bound of the time left, with a proof that the bound is one.
pub mod Base
pub mod Core
pub mod StateStore
pub mod EventBus
pub mod ServiceRegistry
pub mod ConfigEntries
pub mod EntityRegistry
pub mod Registries
pub mod Automation
pub mod Script
pub mod AutomationEngine
