-- ===== src/Script/Executor/Looping.antt =====
-- How often a repeat of crates/ha-script/src/executor.rs runs its body.
use homeassistant_rs.Base.{ℕ, nat_eq, true, false, length}
use homeassistant_rs.Base.Json.{Value, array, to_list}
use homeassistant_rs.Script.Action.{
  Actions, RepeatConfig, RepeatCount, count, for_each, while_all, until_all,
}
use homeassistant_rs.Script.Context.{ExecutionContext}
use homeassistant_rs.Script.Machine.{Machine, Outcome, ActionResult}
use homeassistant_rs.Script.Steps.{all_hold}
use homeassistant_rs.Script.Executor.{
  execute, execute_repeat, while_loop, until_loop, count_loop, each_loop, max_iterations,
  count_value, items_of,
}
use homeassistant_rs.Script.Executor.Rounds.{
  AddsOne, Ended, Times, Gives, finish-Times, finish-Ended, count_loop-Times, each_loop-Times,
  while_loop-Ended, until_loop-Ended,
}

-- The repeats whose rounds their text gives: no templates.
abbrev pub IsLiteral : RepeatConfig → Type 0
IsLiteral (count (RepeatCount.number n) actions) = Unit
IsLiteral (for_each (array items) actions) = Unit
IsLiteral (count _ actions) = ⊥
IsLiteral (for_each _ actions) = ⊥
IsLiteral _ = Unit

abbrev pub body_of : RepeatConfig → Actions
body_of (count n actions) = actions
body_of (for_each v actions) = actions
body_of (while_all cs actions) = actions
body_of (until_all cs actions) = actions

module _ {World : Type 0} (m : Machine World) (runs : World → ℕ) where
  -- How often a repeat has run its body.
  abbrev pub Repeated : RepeatConfig → ℕ → Outcome World ActionResult → Type 0
  Repeated (count (RepeatCount.number n) actions) before o = Times runs n before o
  Repeated (for_each (array items) actions) before o = Times runs (length (to_list items)) before o
  Repeated (while_all cs actions) before o = Ended runs (Gives m cs false) 0 10_000 before o
  Repeated (until_all cs actions) before o = Ended runs (Gives m cs true) 1 10_000 before o
  Repeated _ before o = ⊥

  -- Where each run of its body raises a measure of the world by one, a repeat without a template for
  -- its rounds raises it, if it does not fail, exactly by its count or the length of its list. A
  -- `while` raises it by 10,000 at most, and by less only if its conditions do not hold at the end; an
  -- `until` by 1 to 10,000, and by less than 10,000 only if they hold at the end. A repeat that fails
  -- raises it by no more than that.
  pub execute_repeat-Repeated :
      (c : RepeatConfig) (ctx : ExecutionContext) (w : World)
      → IsLiteral c
      → AddsOne runs (execute m (body_of c))
      → Repeated c (runs w) (execute_repeat m c ctx w)
  unfolding execute count_value items_of max_iterations
  execute_repeat-Repeated (count (RepeatCount.number n) actions) ctx w lit h =
      finish-Times runs n (runs w) (count_loop (execute m actions) n n 1) ctx w
        (count_loop-Times runs (execute m actions) h n n 1 ctx w)
  execute_repeat-Repeated (count (RepeatCount.template s) actions) ctx w lit h = absurd lit
  execute_repeat-Repeated (for_each (array items) actions) ctx w lit h =
      let n = length (to_list items) in
      finish-Times runs n (runs w) (each_loop (execute m actions) n (to_list items) 1) ctx w
        (each_loop-Times runs (execute m actions) h n (to_list items) 1 ctx w)
  execute_repeat-Repeated (for_each Value.null actions) ctx w lit h = absurd lit
  execute_repeat-Repeated (for_each (Value.bool b) actions) ctx w lit h = absurd lit
  execute_repeat-Repeated (for_each (Value.number n) actions) ctx w lit h = absurd lit
  execute_repeat-Repeated (for_each (Value.string s) actions) ctx w lit h = absurd lit
  execute_repeat-Repeated (for_each (Value.object fs) actions) ctx w lit h = absurd lit
  execute_repeat-Repeated (while_all cs actions) ctx w lit h =
      finish-Ended runs m cs false 0 10_000 (runs w)
        (while_loop (all_hold m cs) (execute m actions) 10_000 1) ctx w
        (while_loop-Ended runs (execute m actions) h m cs 10_000 1 ctx w)
  execute_repeat-Repeated (until_all cs actions) ctx w lit h =
      finish-Ended runs m cs true 1 10_000 (runs w)
        (until_loop (all_hold m cs) (execute m actions) 10_000 1) ctx w
        (until_loop-Ended runs (execute m actions) h m cs 9_999 1 ctx w)
