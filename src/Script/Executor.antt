-- ===== src/Script/Executor.antt =====
-- crates/ha-script/src/executor.rs: `ScriptExecutor`, the actions that hold others.
pub mod Proceeding
pub mod Sequencing
pub mod Waiting
pub mod Looping
pub mod Rounds
pub mod Contexts
use homeassistant_rs.Base.{
  ◌^◌, ℕ, zero, suc, ◌+◌, Bool, false, Option, none, some, List, [], ◌∷◌, ◌++◌, Result, ok, err,
  if◌then◌else◌, ◌==◌, nat_eq, list_eq, length,
}
use homeassistant_rs.Base.Text.{Text, text, parse_uint}
use homeassistant_rs.Base.Json.{Value, string, array, to_list}
use homeassistant_rs.Automation.EvalContext.{EvalContext}
use homeassistant_rs.Script.Action.{
  Action, Actions, nil, cons, invalid, ChooseOptions, no_option, option, RepeatConfig, count,
  for_each, while_all, until_all, RepeatCount, Branches, no_branch, fork, is_empty,
}
use homeassistant_rs.Script.Context.{ExecutionContext, to_eval_context}
use homeassistant_rs.Script.Machine.{
  Machine, Outcome, ScriptExecutorError, invalid_action, template, Failure, error, panic,
  ActionResult, continue, stop, stop_with_response, M, pure, fail, lift, ◌>>=◌, ◌>>◌, update,
}
use homeassistant_rs.Script.Steps.{
  render_now, execute_service, execute_delay, execute_variables, execute_condition, execute_stop,
  execute_event, execute_scene, execute_wait_for_trigger, execute_wait_template, all_hold,
  evaluate_choose_conditions,
}

-- The bound of the two conditional loops.
pub max_iterations : ℕ
max_iterations = 10_000

unfoldable pub in_round : ℕ → Bool → Option Value → ExecutionContext → ExecutionContext
in_round index last item ctx = record ctx {
  repeat = some (record { index = index; first = index == 1; last = last; item = item });
}

unfoldable pub end_repeat : ExecutionContext → ExecutionContext
end_repeat ctx = record ctx { repeat = none }

-- The results of the branches and the world after them; `none` where one of them panicked.
abbrev pub Branched : Type 0 → Type 0
Branched World = Option (List (Result ScriptExecutorError (Option Value))) × World

abbrev pub add_result :
    {World : Type 0} → Result ScriptExecutorError (Option Value) → Branched World → Branched World
add_result result (none, w) = (none, w)
add_result result (some results, w) = (some (result ∷ results), w)

-- After the result of a branch: `others` is what the branches after it come to. A panic unwinds the
-- loop, an error is kept for the end.
unfoldable pub next_branch :
    {World : Type 0} → Result Failure (Option Value) → World → Branched World → Branched World
next_branch (err panic) w others = (none, w)
next_branch (err (error e)) w others = add_result (err e) others
next_branch (ok response) w others = add_result (ok response) others

-- The first error of the branches.
unfoldable pub check_all :
    List (Result ScriptExecutorError (Option Value)) → Result Failure ActionResult
check_all [] = ok continue
check_all (ok _ ∷ results) = check_all results
check_all (err e ∷ results) = err (error e)

-- What `execute_parallel` does with the results of the branches.
unfoldable pub join_branches :
    {World : Type 0} → ExecutionContext → Branched World → Outcome World ActionResult
unfolding check_all
join_branches ctx (none, w) = (err panic, ctx, w)
join_branches ctx (some results, w) = (check_all results, ctx, w)

module _ {World : Type 0} where
  -- `for i in 1..=count_value`, with `left` rounds to go.
  unfoldable pub count_loop : M World (Option Value) → ℕ → ℕ → ℕ → M World (Unit {0})
  unfolding in_round
  count_loop body total zero i = pure tt
  count_loop body total (suc left) i =
      update (in_round i (i == total) none) >> body >> count_loop body total left (i + 1)

  -- `for (i, item) in items.into_iter().enumerate()`, where `i` is the index of the context.
  unfoldable pub each_loop : M World (Option Value) → ℕ → List Value → ℕ → M World (Unit {0})
  unfolding in_round
  each_loop body total [] i = pure tt
  each_loop body total (item ∷ items) i =
      update (in_round i (i == total) (some item)) >> body >> each_loop body total items (i + 1)

  -- The two conditional loops; `left` is `max_iterations + 1 - index`.
  unfoldable pub while_loop : M World Bool → M World (Option Value) → ℕ → ℕ → M World (Unit {0})
  unfolding in_round
  while_loop test body zero index = pure tt
  while_loop test body (suc left) index =
      let again = while_loop test body left (index + 1) in
      test >>= λ should_continue.
      if should_continue then update (in_round index false none) >> body >> again else pure tt

  unfoldable pub until_loop : M World Bool → M World (Option Value) → ℕ → ℕ → M World (Unit {0})
  unfolding in_round
  until_loop test body zero index = pure tt
  until_loop test body (suc left) index =
      let again = until_loop test body left (index + 1) in
      update (in_round index false none) >> body >> test >>= λ should_stop.
      if should_stop then pure tt else again

  -- `ctx.repeat = None` after each loop.
  unfoldable pub finish_repeat : M World (Unit {0}) → M World ActionResult
  unfolding end_repeat
  finish_repeat loop = loop >> update end_repeat >> pure continue

  -- What `execute` does with the result of an action.
  unfoldable pub after_action : ActionResult → M World (Option Value) → M World (Option Value)
  after_action continue rest = rest
  after_action stop rest = λ ctx w. (ok ctx.response, ctx, w)
  after_action (stop_with_response response) rest = pure (some response)

  unfoldable pub if_enabled : Bool → M World ActionResult → M World ActionResult
  if_enabled enabled run = if enabled then run else pure continue

module _ {World : Type 0} (m : Machine World) where
  unfoldable pub count_value : RepeatCount → M World ℕ
  unfolding render_now parse_uint
  count_value (RepeatCount.number n) = pure n
  count_value (RepeatCount.template s) = render_now m s >>= λ rendered.
      elim (parse_uint (2 ^ 64) rendered) [
        | none ↦ fail (template (text "Invalid count: " ++ rendered))
        | some n ↦ pure n
      ]

  -- `serde_json::from_str` to a list; the text of the error at another value is left out.
  unfoldable pub items_of_json : Result Text Value → Result Failure (List Value)
  unfolding to_list
  items_of_json (ok (array items)) = ok (to_list items)
  items_of_json (ok _) = err (error (template (text "Invalid for_each list: ")))
  items_of_json (err e) = err (error (template (text "Invalid for_each list: " ++ e)))

  unfoldable pub items_of : Value → M World (List Value)
  unfolding render_now items_of_json to_list
  items_of (array items) = pure (to_list items)
  items_of (string s) = render_now m s >>= λ rendered. lift (items_of_json (m.rt.from_str rendered))
  items_of value = pure (value ∷ [])

  unfoldable mutual
    unfolding execute_service execute_delay execute_variables execute_condition execute_stop
        execute_event execute_scene execute_wait_for_trigger execute_wait_template all_hold
        evaluate_choose_conditions count_loop each_loop while_loop until_loop after_action
        if_enabled join_branches next_branch count_value items_of finish_repeat to_eval_context
        max_iterations

    pub execute : Actions → M World (Option Value)
    execute nil = λ ctx w. (ok ctx.response, ctx, w)
    execute (invalid e actions) = fail (invalid_action e)
    execute (cons action actions) =
        let rest = execute actions in execute_action action >>= λ result. after_action result rest

    pub execute_action : Action → M World ActionResult
    execute_action (Action.service a) = if_enabled a.enabled (execute_service m a)
    execute_action (Action.delay a) = if_enabled a.enabled (execute_delay m a)
    execute_action (Action.variables a) = if_enabled a.enabled (execute_variables m a)
    execute_action (Action.condition a) = if_enabled a.enabled (execute_condition m a)
    execute_action (Action.stop a) = if_enabled a.enabled (execute_stop m a)
    execute_action (Action.event a) = if_enabled a.enabled (execute_event m a)
    execute_action (Action.scene a) = if_enabled a.enabled (execute_scene m a)
    execute_action (Action.choose options default enabled) =
        let run_default = execute default in
        if_enabled enabled (λ ctx.
          execute_choose options
            (if is_empty default then pure continue else run_default >> pure continue)
            (to_eval_context ctx) ctx)
    execute_action (Action.branch conditions taken otherwise enabled) =
        let run_taken = execute taken in
        let run_otherwise = execute otherwise in
        if_enabled enabled (λ ctx.
          (evaluate_choose_conditions m (to_eval_context ctx) conditions >>= λ matches.
          if matches
          then run_taken >> pure continue
          else if is_empty otherwise
          then pure continue
          else run_otherwise >> pure continue)
            ctx)
    execute_action (Action.repeat config enabled) = if_enabled enabled (execute_repeat config)
    execute_action (Action.sequence actions enabled) =
        if_enabled enabled (execute actions >> pure continue)
    execute_action (Action.parallel branches enabled) =
        if_enabled enabled (λ ctx w. join_branches ctx (run_branches branches ctx w))
    execute_action (Action.wait_for_trigger a) = if_enabled a.enabled (execute_wait_for_trigger m a)
    execute_action (Action.wait_template a) = if_enabled a.enabled (execute_wait_template m a)

    -- The loop over the options, then `otherwise`.
    pub execute_choose : ChooseOptions → M World ActionResult → EvalContext → M World ActionResult
    execute_choose no_option otherwise eval_ctx = otherwise
    execute_choose (option conditions actions options) otherwise eval_ctx =
        let run_option = execute actions in
        let others = execute_choose options otherwise eval_ctx in
        evaluate_choose_conditions m eval_ctx conditions >>= λ matches.
        if matches then run_option >> pure continue else others

    pub execute_repeat : RepeatConfig → M World ActionResult
    execute_repeat (count n actions) =
        let body = execute actions in
        count_value n >>= λ total. finish_repeat (count_loop body total total 1)
    execute_repeat (for_each value actions) =
        let body = execute actions in
        items_of value >>= λ items. finish_repeat (each_loop body (length items) items 1)
    execute_repeat (while_all conditions actions) =
        finish_repeat (while_loop (all_hold m conditions) (execute actions) max_iterations 1)
    execute_repeat (until_all conditions actions) =
        finish_repeat (until_loop (all_hold m conditions) (execute actions) max_iterations 1)

    -- Each branch has a copy of the context, which is dropped after it.
    pub run_branches : Branches → ExecutionContext → World → Branched World
    run_branches no_branch ctx w = (some [], w)
    run_branches (fork actions branches) ctx w =
        let (result, ctx', w1) = execute actions ctx w in
        next_branch result w1 (run_branches branches ctx w1)
