-- ===== src/AutomationEngine.antt =====
-- crates/ha-server/src/automation_engine.rs: from an event over triggers and conditions to actions. The
-- loop of `start`, which calls `process_event` for each event of the bus, and the shutdown are left out.
pub mod Interleaving
pub mod Runs
mod Tests
use homeassistant_rs.Base.{
  ℕ, ◌+◌, ◌-◌, Bool, true, false, not, Option, none, some, List, [], ◌∷◌, ◌++◌, nat_eq, list_eq,
  Result, ok, err, unwrap_or, if◌then◌else◌,
}
use homeassistant_rs.Base.Text.{Text, text}
use homeassistant_rs.Base.Map
use homeassistant_rs.Base.Map.{Map}
use homeassistant_rs.Base.Json.{Value}
use homeassistant_rs.Core.Event.{Event}
use homeassistant_rs.Automation.Trigger
use homeassistant_rs.Automation.Trigger.{TriggerData, Trigger}
use homeassistant_rs.Automation.Condition.{Conditions}
use homeassistant_rs.Automation.EvalContext.{ConditionResult, with_trigger}
use homeassistant_rs.Automation.Evaluator.{evaluate_all}
use homeassistant_rs.Automation.TriggerContext
use homeassistant_rs.Automation.TriggerMatching.{TriggerResult}
use homeassistant_rs.Automation.TriggerEvaluation.{evaluate}
use homeassistant_rs.Automation.Manager
use homeassistant_rs.Automation.Manager.{Automation, AutomationManager, ExecutionMode, has_room}
use homeassistant_rs.Script.Action.{Actions}
use homeassistant_rs.Script.Context
use homeassistant_rs.Script.Machine.{Machine, Failure, error, panic}
use homeassistant_rs.Script.Executor.{execute}

-- `executing`: the number of runs of each automation.
abbrev pub Executing : Type 0
Executing = Map Text ℕ

unfoldable pub runs_of : Text → Executing → ℕ
runs_of id executing = unwrap_or (Map.lookup id executing) 0

-- The check of the execution mode, and the increment; `none` where the run is refused.
unfoldable pub admit : ExecutionMode → Text → Executing → Option Executing
unfolding runs_of has_room
admit mode id executing =
    let current_runs = runs_of id executing in
    if has_room mode current_runs then some (Map.insert id (current_runs + 1) executing) else none

-- `*count = count.saturating_sub(1)`, if there is a count.
unfoldable pub release : Text → Executing → Executing
release id executing = Map.modify id (λ n. n - 1) executing

abbrev pub is_pass : ConditionResult Bool → Bool
is_pass (ok result) = result
is_pass (err e) = false

-- A clause for the three results of the evaluation of a trigger; an error is logged.
abbrev pub spawn :
    {A : Type 0}
    → A
    → TriggerResult (Option TriggerData)
    → List (A × TriggerData)
    → List (A × TriggerData)
spawn a (ok (some t)) rest = (a, t) ∷ rest
spawn a (ok none) rest = rest
spawn a (err e) rest = rest

-- Whether an execution ended otherwise than by a panic.
abbrev pub returns : {A : Type 0} → Result Failure A → Bool
returns (ok a) = true
returns (err (error e)) = true
returns (err panic) = false

-- The end of a run, which a panic does not reach.
abbrev pub end_run : {World : Type 0} → Text → Executing → Bool × World → Executing × World
end_run id admitted (true, w) = (release id admitted, w)
end_run id admitted (false, w) = (admitted, w)

module _ {World : Type 0} (m : Machine World) where
  -- What a run does between its admission and its end, and whether it comes to its end: a panic of the
  -- executor unwinds past it.
  unfoldable pub run_body : Automation Value Actions → TriggerData → World → Bool × World
  unfolding with_trigger evaluate_all execute Context.with_trigger
  run_body a t w =
      if is_pass
        (evaluate_all m.rt (m.state_machine w) (m.local_now w) a.conditions (with_trigger t))
      then (let (result, ctx, w') = execute m a.actions (Context.with_trigger t) w in
          (returns result, w'))
      else (true, w)

  abbrev after_admission :
      Option Executing
      → Automation Value Actions
      → TriggerData
      → Executing × World
      → Executing × World
  after_admission none a t s = s
  after_admission (some admitted) a t (executing, w) = end_run a.id admitted (run_body a t w)

  -- `run_automation`, where no other run comes in between.
  unfoldable pub run_automation :
      Automation Value Actions → TriggerData → Executing × World → Executing × World
  unfolding admit release run_body
  run_automation a t s = after_admission (admit a.mode a.id s.0) a t s

  -- The manual trigger.
  unfoldable pub trigger :
      AutomationManager Value Actions
      → Text
      → Option TriggerData
      → Executing × World
      → Executing × World
  unfolding run_automation Trigger.new Manager.get
  trigger manager id t s = elim (Manager.get id manager) [
    | none ↦ s
    | some a ↦
        if not a.enabled
        then s
        else run_automation a (unwrap_or t (Trigger.new (text "manual") (m.utc_now s.1))) s
  ]

  -- The loop over the triggers of an automation: the runs that it spawns.
  unfoldable pub matched :
      Automation Value Actions
      → List Trigger
      → Event Value
      → World
      → List (Automation Value Actions × TriggerData)
  unfolding evaluate
  matched a [] event w = []
  matched a (t ∷ ts) event w =
      spawn a (evaluate m.rt (m.state_machine w) (m.utc_now w) t event) (matched a ts event w)

  -- The loop over the automations.
  unfoldable pub spawned :
      List (Automation Value Actions)
      → Event Value
      → World
      → List (Automation Value Actions × TriggerData)
  unfolding matched
  spawned [] event w = []
  spawned (a ∷ automations) event w =
      let rest = spawned automations event w in
      if not a.enabled then rest else matched a a.triggers event w ++ rest

  unfoldable pub process_event :
      Event Value
      → AutomationManager Value Actions
      → World
      → List (Automation Value Actions × TriggerData)
  unfolding spawned Manager.all
  process_event event manager w = spawned (Manager.all manager) event w
