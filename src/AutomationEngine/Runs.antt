-- ===== src/AutomationEngine/Runs.antt =====
-- What one run of crates/ha-server/src/automation_engine.rs does, where no other comes in between.
use homeassistant_rs.Base.{
  ℕ, ◌+◌, ◌-◌, ◌≡◌, refl, Bool, true, false, Option, Result, ok, err, nat_eq, list_eq, ==_iff, ◌==◌,
  arith, if◌then◌else◌, Bool-cases, inl, inr,
}
use homeassistant_rs.Base.Text.{Text}
use homeassistant_rs.Base.Map
use homeassistant_rs.Base.Map.{lookup-insert, lookup-modify}
use homeassistant_rs.Base.Json.{Value}
use homeassistant_rs.Automation.Trigger.{TriggerData}
use homeassistant_rs.Automation.EvalContext.{ConditionResult, with_trigger}
use homeassistant_rs.Automation.Evaluator.{evaluate_all}
use homeassistant_rs.Automation.Manager.{
  Automation, ExecutionMode, single, restart, queued, parallel, has_room,
}
use homeassistant_rs.Script.Action.{Actions}
use homeassistant_rs.Script.Context
use homeassistant_rs.Script.Machine.{Machine, Outcome, Failure, error, panic}
use homeassistant_rs.Script.Executor.{execute}
use homeassistant_rs.AutomationEngine.{
  Executing, runs_of, admit, release, is_pass, returns, end_run, run_body, run_automation,
}
use homeassistant_rs.AutomationEngine.Interleaving.{IsWithin, room-IsWithin}

full-IsWithin : (mode : ExecutionMode) (n : ℕ) → has_room mode n ≡ false → ¬ IsWithin mode (n + 1)
unfolding has_room
full-IsWithin single n h within = ground arith
full-IsWithin restart n h within = ground arith
full-IsWithin (queued max) n h within = ground arith
full-IsWithin (parallel max) n h within = ground arith

module _ {World : Type 0} (m : Machine World) where
  released :
      (id j : Text) (e : Executing)
      → runs_of j (release id (Map.insert id (runs_of id e + 1) e)) ≡ runs_of j e
  unfolding runs_of release
  released id j e = ground (
    arith,
    lookup-modify id j (λ n. n - 1) (Map.insert id (runs_of id e + 1) e),
    lookup-insert id j (runs_of id e + 1) e,
    ==_iff id j,
  )

  added :
      (id j : Text) (e : Executing)
      → runs_of j (Map.insert id (runs_of id e + 1) e)
        ≡ (if id == j then runs_of j e + 1 else runs_of j e)
  unfolding runs_of
  added id j e = ground (arith, lookup-insert id j (runs_of id e + 1) e, ==_iff id j)

  -- Whether the conditions of the automation hold, and what its actions do.
  abbrev pub conditions_of : Automation Value Actions → TriggerData → World → ConditionResult Bool
  conditions_of a t w =
      evaluate_all m.rt (m.state_machine w) (m.local_now w) a.conditions (with_trigger t)

  abbrev pub execution_of :
      Automation Value Actions → TriggerData → World → Outcome World (Option Value)
  execution_of a t w = execute m a.actions (Context.with_trigger t) w

  -- What a run makes of the counts of runs and of the world.
  pub data Ran (a : Automation Value Actions) (t : TriggerData) (e : Executing) (w : World)
      : Executing → World → Type 0 where
    refused : ¬ IsWithin a.mode (runs_of a.id e + 1) → Ran a t e w e w
    unmet :
        (e' : Executing)
        → IsWithin a.mode (runs_of a.id e + 1)
        → ¬ (conditions_of a t w ≡ ok true)
        → ((j : Text) → runs_of j e' ≡ runs_of j e)
        → Ran a t e w e' w
    executed :
        (e' : Executing)
        → IsWithin a.mode (runs_of a.id e + 1)
        → conditions_of a t w ≡ ok true
        → ¬ ((execution_of a t w).0 ≡ err panic)
        → ((j : Text) → runs_of j e' ≡ runs_of j e)
        → Ran a t e w e' (execution_of a t w).2
    unwound :
        (e' : Executing)
        → IsWithin a.mode (runs_of a.id e + 1)
        → conditions_of a t w ≡ ok true
        → (execution_of a t w).0 ≡ err panic
        → ((j : Text) → runs_of j e' ≡ (if a.id == j then runs_of j e + 1 else runs_of j e))
        → Ran a t e w e' (execution_of a t w).2

  abbrev admitted : Automation Value Actions → Executing → Executing
  admitted a e = Map.insert a.id (runs_of a.id e + 1) e

  execution-Ran :
      (a : Automation Value Actions) (t : TriggerData) (e : Executing) (w : World)
      → IsWithin a.mode (runs_of a.id e + 1)
      → conditions_of a t w ≡ ok true
      → (r : Result Failure (Option Value)) → (execution_of a t w).0 ≡ r
      → Ran a t e w
          (end_run a.id (admitted a e) (returns r, (execution_of a t w).2)).0
          (execution_of a t w).2
  execution-Ran a t e w within met (ok v) h =
      executed _ within met (λ p. cc) (λ j. released a.id j e)
  execution-Ran a t e w within met (err (error x)) h =
      executed _ within met (λ p. cc) (λ j. released a.id j e)
  execution-Ran a t e w within met (err panic) h = unwound _ within met h (λ j. added a.id j e)

  abbrev body : Automation Value Actions → TriggerData → World → ConditionResult Bool → Bool × World
  body a t w passed =
      if is_pass passed then (returns (execution_of a t w).0, (execution_of a t w).2) else (true, w)

  body-Ran :
      (a : Automation Value Actions) (t : TriggerData) (e : Executing) (w : World)
      → IsWithin a.mode (runs_of a.id e + 1)
      → (c : ConditionResult Bool) → conditions_of a t w ≡ c
      → Ran a t e w
          (end_run a.id (admitted a e) (body a t w c)).0
          (end_run a.id (admitted a e) (body a t w c)).1
  body-Ran a t e w within (ok true) met = ended (execution_of a t w).0 refl
    where
      ended :
          (r : Result Failure (Option Value))
          → (execution_of a t w).0 ≡ r
          → Ran a t e w
              (end_run a.id (admitted a e) (returns r, (execution_of a t w).2)).0
              (end_run a.id (admitted a e) (returns r, (execution_of a t w).2)).1
      ended (ok v) h = execution-Ran a t e w within met (ok v) h
      ended (err (error x)) h = execution-Ran a t e w within met (err (error x)) h
      ended (err panic) h = execution-Ran a t e w within met (err panic) h
  body-Ran a t e w within (ok false) met = unmet _ within (λ p. cc) (λ j. released a.id j e)
  body-Ran a t e w within (err x) met = unmet _ within (λ p. cc) (λ j. released a.id j e)

  -- A run for which its mode has no room changes nothing. Any other evaluates the conditions, and only
  -- if they hold it executes the actions, and the world is then as the execution leaves it. After it
  -- the counts of runs are what they were, but if the execution panics the automation has one more.
  pub run_automation-Ran :
      (a : Automation Value Actions) (t : TriggerData) (e : Executing) (w : World)
      → Ran a t e w (run_automation m a t (e, w)).0 (run_automation m a t (e, w)).1
  unfolding run_automation run_body admit
  run_automation-Ran a t e w = elim (Bool-cases (has_room a.mode (runs_of a.id e))) [
    | inl room ↦
        rw room
          (body-Ran a t e w (room-IsWithin a.mode (runs_of a.id e) room) (conditions_of a t w) refl)
    | inr full ↦ rw full (refused (full-IsWithin a.mode (runs_of a.id e) full))
  ]
