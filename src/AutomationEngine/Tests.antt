-- ===== src/AutomationEngine/Tests.antt =====
-- Runs of automations on the small machine of the scripts.
use homeassistant_rs.Base.{true, ◌≡◌, refl, none, [], ◌∷◌, list_beq}
use homeassistant_rs.Base.Text.{Text, text}
use homeassistant_rs.Base.Map.{lookup, insert}
use homeassistant_rs.Base.Json.{Value}
use homeassistant_rs.Automation.Trigger.{TriggerData}
use homeassistant_rs.Automation.Condition
use homeassistant_rs.Automation.Manager.{Automation, ExecutionMode, single, restart, queued}
use homeassistant_rs.ServiceRegistry.{new, register}
use homeassistant_rs.Script.Action.{Actions}
use homeassistant_rs.Script.Tests.{small, one, start}
use homeassistant_rs.AutomationEngine.{admit, run_automation}
use homeassistant_rs.AutomationEngine.Runs.{Ran, run_automation-Ran}
use homeassistant_rs.AutomationEngine.Interleaving.{
  State, begin, unwind, Reach, next, count_of, IsCounted, Reach-IsCounted, restart_piles_up,
}

abbrev lamp : Automation Value Actions
lamp = record {
  id = text "lamp";
  alias = none;
  description = none;
  triggers = [];
  conditions = Condition.nil;
  actions = one;
  mode = single;
  enabled = true;
  variables = Value.null;
  last_triggered = none;
  current_runs = 0;
  trace_config = record { stored_traces = 5 };
}

abbrev manual : TriggerData
manual = record { id = none; platform = text "manual"; variables = []; triggered_at = 0 }

run_runs : (run_automation small lamp manual ([], start)).1.calls ≡ 1
unfolding run_automation lookup register insert new list_beq
run_runs = refl

run_automation-Ran_example :
    Ran small lamp manual [] start
      (run_automation small lamp manual ([], start)).0
      (run_automation small lamp manual ([], start)).1
run_automation-Ran_example = run_automation-Ran small lamp manual [] start

abbrev modes : Text → ExecutionMode
modes id = queued 2

abbrev one_run : State
one_run = record { executing = (text "lamp", 1) ∷ []; tasks = text "lamp" ∷ []; panicked = [] }

one_run_Reach : Reach modes one_run
unfolding admit lookup insert
one_run_Reach = next Reach.start (
    begin (text "lamp") (record { executing = []; tasks = []; panicked = [] })
      ((text "lamp", 1) ∷ []) refl)

Reach-IsCounted_example : IsCounted modes one_run
Reach-IsCounted_example = Reach-IsCounted modes one_run_Reach

abbrev single_run : State
single_run = record { executing = (text "lamp", 1) ∷ []; tasks = []; panicked = text "lamp" ∷ [] }

single_run_Reach : Reach (λ id. single) single_run
unfolding admit lookup insert
single_run_Reach =
    next
      (next Reach.start (
        begin (text "lamp") (record { executing = []; tasks = []; panicked = [] })
          ((text "lamp", 1) ∷ []) refl))
      (unwind (text "lamp") ((text "lamp", 1) ∷ []) [] [] []
        (record { executing = (text "lamp", 1) ∷ []; tasks = text "lamp" ∷ []; panicked = [] })
        refl)

restart_piles_up_example :
    (s : State) × Reach (λ id. restart) s × (count_of (text "lamp") s.tasks ≡ 3)
restart_piles_up_example = restart_piles_up (λ id. restart) (text "lamp") refl 3
