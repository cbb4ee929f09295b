-- ===== src/Script/Tests.antt =====
-- Scripts on a small machine: the world is a clock and the number of calls of the service `test.count`.
use homeassistant_rs.Base.{
  ℕ, ◌+◌, ◌≤◌, true, false, ◌≡◌, refl, ◌↔◌, none, some, [], ok, arith, list_eq, list_beq, nat_eq,
}
use homeassistant_rs.Base.Text.{text}
use homeassistant_rs.Base.Map.{lookup, insert}
use homeassistant_rs.Base.Json.{Value, is_nan, is_negative}
use homeassistant_rs.Core.Context.{Context}
use homeassistant_rs.Core.ServiceCall.{optional}
use homeassistant_rs.ServiceRegistry
use homeassistant_rs.ServiceRegistry.{ServiceRegistry, ServiceHandler}
use homeassistant_rs.Automation.Tests.{plain_runtime, small_store, monday}
use homeassistant_rs.Script.Action
use homeassistant_rs.Script.Action.{
  Action, Actions, nil, cons, append, RepeatConfig, RepeatCount, Branches, no_branch, fork,
}
use homeassistant_rs.Script.Context
use homeassistant_rs.Script.Context.{ExecutionContext}
use homeassistant_rs.Script.Machine.{Machine, ◌>>◌, continue}
use homeassistant_rs.Script.Steps.{wait_timeout, execute_wait_template, template_vars}
use homeassistant_rs.Script.Executor.{execute, execute_action, execute_repeat}
use homeassistant_rs.Script.Executor.Sequencing.{execute-append, execute_nested_stop}
use homeassistant_rs.Script.Executor.Waiting.{Waited, execute_wait_template-Waited}
use homeassistant_rs.Script.Executor.Rounds.{AddsOne}
use homeassistant_rs.Script.Executor.Looping.{Repeated, execute_repeat-Repeated}
use homeassistant_rs.Script.Executor.Contexts.{
  Cleared, execute_repeat-Cleared, after_branches, all_joined, AllSucceed, execute_parallel_lem,
}

pub record World : Type 0 where
  pub clock : ℕ
  pub calls : ℕ

abbrev nobody : Context
nobody = record { id = text "c"; user_id = none; parent_id = none }

abbrev counting : ServiceHandler Value World
counting c w = (ok none, record w { calls = w.calls + 1 })

abbrev services : ServiceRegistry Value World
services =
    ServiceRegistry.register (text "test") (text "count") counting none optional ServiceRegistry.new

pub sleep_advances_lem : (d : ℕ) (w : World) → w.clock + d ≤ w.clock + d
sleep_advances_lem d w = omega arith

abbrev pub small : Machine World
small = record {
  rt = plain_runtime;
  service_registry = λ w. services;
  state_machine = λ w. small_store;
  fire = λ e w. w;
  new_context = λ w. (nobody, w);
  utc_now = λ w. w.clock;
  local_now = λ w. monday;
  instant_now = λ w. w.clock;
  sleep = λ d w. record w { clock = w.clock + d };
  sleep_advances = sleep_advances_lem;
}

abbrev pub start : World
start = record { clock = 0; calls = 0 }

abbrev count_one : Action
count_one = Action.service (record {
  service = text "test.count";
  target = none;
  service_data = [];
  response_variable = none;
  enabled = true;
})

abbrev halt : Action.StopAction
halt = record { stop = text "enough"; error = false; enabled = true }

abbrev pub one : Actions
one = cons count_one nil

abbrev two : Actions
two = cons count_one (cons count_one nil)

-- The stop in the nested sequence does not keep the second call back.
stop_runs :
    (execute small
      (cons (Action.sequence (append one (cons (Action.stop halt) two)) true) one)
      Context.new
      start).2.calls
    ≡ 2
unfolding execute lookup ServiceRegistry.register insert ServiceRegistry.new list_beq
stop_runs = refl

execute_nested_stop_example :
    execute small (cons (Action.sequence (append one (cons (Action.stop halt) two)) true) one)
    ≡ (execute small one >> execute small one)
execute_nested_stop_example = execute_nested_stop small halt one two one refl refl (tt, tt)

execute-append_example : execute small (append one two) ≡ (execute small one >> execute small two)
execute-append_example = execute-append small one two (tt, tt)

abbrev thrice : RepeatConfig
thrice = RepeatConfig.count (RepeatCount.number 3) one

thrice_runs : (execute_repeat small thrice Context.new start).2.calls ≡ 3
unfolding execute_repeat lookup ServiceRegistry.register insert ServiceRegistry.new list_beq
thrice_runs = refl

one_call : AddsOne {World = World} (λ w. w.calls) (execute small one)
unfolding execute lookup ServiceRegistry.register insert ServiceRegistry.new list_beq
one_call ctx w = refl

execute_repeat-Repeated_example :
    Repeated small (λ w. w.calls) thrice 0 (execute_repeat small thrice Context.new start)
execute_repeat-Repeated_example =
    execute_repeat-Repeated small (λ w. w.calls) thrice Context.new start tt one_call

execute_repeat-Cleared_example : Cleared (execute_repeat small thrice Context.new start)
execute_repeat-Cleared_example = execute_repeat-Cleared small thrice Context.new start

-- A panic of the first branch keeps the second from running.
abbrev bad_delay : Actions
bad_delay =
    cons (Action.delay (record { delay = Action.DelaySpec.template (text "nan"); enabled = true }))
      nil

abbrev both : Branches
both = fork one (fork two no_branch)

panic_runs :
    (execute_action small
      (Action.parallel (fork bad_delay (fork one no_branch)) true)
      Context.new
      start).2.calls
    ≡ 0
unfolding execute lookup ServiceRegistry.register insert ServiceRegistry.new list_beq is_nan
panic_runs = refl

execute_parallel_lem_example :
    ((execute_action small (Action.parallel both true) Context.new start).1 ≡ Context.new)
    × ((execute_action small (Action.parallel both true) Context.new start).2
        ≡ after_branches small both Context.new start)
    × ((execute_action small (Action.parallel both true) Context.new start).0
        ≡ all_joined small both Context.new start)
    × (((execute_action small (Action.parallel both true) Context.new start).0 ≡ ok continue)
        ↔ AllSucceed small both Context.new start)
execute_parallel_lem_example = execute_parallel_lem small both Context.new start

abbrev waiting : Action.WaitTemplateAction
waiting = record {
  wait_template = text "off";
  timeout = some (text "1");
  continue_on_timeout = true;
  enabled = true;
}

execute_wait_template-Waited_example :
    Waited small waiting
      (template_vars small Context.new)
      0
      1
      (execute_wait_template small waiting Context.new start)
unfolding wait_timeout is_nan is_negative
execute_wait_template-Waited_example =
    execute_wait_template-Waited small waiting (some 1) Context.new start refl
