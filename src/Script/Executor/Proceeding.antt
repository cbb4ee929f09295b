-- ===== src/Script/Executor/Proceeding.antt =====
-- No action but `stop` asks crates/ha-script/src/executor.rs to stop.
use homeassistant_rs.Base.{
  Bool, true, false, ◌≡◌, refl, Option, none, some, [], ◌∷◌, ok, err, if◌then◌else◌, length,
  unwrap_or, ◌*◌,
}
use homeassistant_rs.Base.Text.{Text, text, split_once}
use homeassistant_rs.Automation.EvalContext.{EvalContext, ConditionResult}
use homeassistant_rs.Script.Action
use homeassistant_rs.Script.Action.{
  Action, Actions, nil, cons, invalid, append, ChooseOptions, no_option, option, RepeatConfig,
  count, for_each, while_all, until_all, ConditionAction, StopAction, is_empty,
}
use homeassistant_rs.Script.Context.{ExecutionContext, to_eval_context}
use homeassistant_rs.Script.Durations.{per_second}
use homeassistant_rs.Script.Machine.{
  Machine, Outcome, ActionResult, continue, M, proceed, pure, update, ◌>>◌,
}
use homeassistant_rs.Script.Steps.{
  execute_service, execute_parts, after_condition, delay_duration, render_data, call_service,
  wait_timeout, all_hold, end_wait, sleep_then_end, sleep_some, poll_then_end, scene_data,
  poll_from_now, execute_delay, execute_variables, set_rendered, template_vars, execute_condition,
  execute_event, execute_scene, execute_wait_for_trigger, execute_wait_template,
  evaluate_choose_conditions,
}
use homeassistant_rs.Script.Executor.{
  execute, end_repeat, finish_repeat, max_iterations, while_loop, until_loop, count_loop, each_loop,
  count_value, items_of, execute_action, execute_choose, execute_repeat, run_branches,
  join_branches, Branched, if_enabled,
}

-- The run of an action did not ask to stop.
abbrev pub Proceeds : {World : Type 0} → Outcome World ActionResult → Type 0
Proceeds (ok r, ctx, w) = r ≡ continue
Proceeds (err e, ctx, w) = Unit

-- The actions but `stop`.
abbrev pub IsNoStop : Action → Type 0
IsNoStop (Action.stop a) = ⊥
IsNoStop _ = Unit

-- A sequence none of whose actions is a `stop`; actions inside of actions may be.
abbrev pub HasNoStop : Actions → Type 0
HasNoStop nil = Unit
HasNoStop (cons a actions) = IsNoStop a × HasNoStop actions
HasNoStop (invalid e actions) = HasNoStop actions

module _ {World : Type 0} where
  proceed-Proceeds :
      {A : Type 0} (o : Outcome World A) (f : A → M World ActionResult)
      → ((a : A) (ctx : ExecutionContext) (w : World) → Proceeds (f a ctx w))
      → Proceeds (proceed o f)
  proceed-Proceeds (ok a, ctx, w) f h = h a ctx w
  proceed-Proceeds (err e, ctx, w) f h = tt

  then_continue :
      {A : Type 0} (x : M World A) (ctx : ExecutionContext) (w : World)
      → Proceeds ((x >> pure continue) ctx w)
  then_continue x ctx w = proceed-Proceeds (x ctx w) (λ _. pure continue) (λ _ _ _. refl)

  enabled-Proceeds :
      (b : Bool) (x : M World ActionResult)
      → ((ctx : ExecutionContext) (w : World) → Proceeds (x ctx w))
      → (ctx : ExecutionContext) (w : World) → Proceeds (if_enabled b x ctx w)
  unfolding if_enabled
  enabled-Proceeds true x h ctx w = h ctx w
  enabled-Proceeds false x h ctx w = refl

  if-Proceeds :
      (b : Bool) (x y : M World ActionResult) (ctx : ExecutionContext) (w : World)
      → Proceeds (x ctx w)
      → Proceeds (y ctx w)
      → Proceeds ((if b then x else y) ctx w)
  if-Proceeds true x y ctx w p q = p
  if-Proceeds false x y ctx w p q = q

module _ {World : Type 0} (m : Machine World) where
  parts-Proceeds :
      (o : Option (Text × Text)) (a : Action.ServiceAction) (ctx : ExecutionContext) (w : World)
      → Proceeds (execute_parts m o a ctx w)
  unfolding execute_parts
  parts-Proceeds none a ctx w = tt
  parts-Proceeds (some (domain, svc_name)) a ctx w =
      proceed-Proceeds (render_data m a.service_data ctx w) _ (λ values ctx w.
        proceed-Proceeds (call_service m domain svc_name _ _ ctx w) _ (λ _ _ _. refl))

  condition-Proceeds :
      (r : ConditionResult Bool) (ctx : ExecutionContext) (w : World)
      → Proceeds (after_condition m r ctx w)
  unfolding after_condition
  condition-Proceeds (err e) ctx w = tt
  condition-Proceeds (ok true) ctx w = refl
  condition-Proceeds (ok false) ctx w = if-Proceeds ctx.stop_on_condition_fail _ _ ctx w tt refl

  delay-Proceeds :
      (a : Action.DelayAction) (ctx : ExecutionContext) (w : World)
      → Proceeds (execute_delay m a ctx w)
  unfolding execute_delay
  delay-Proceeds a ctx w = proceed-Proceeds (delay_duration m a.delay ctx w) _ (λ _ _ _. refl)

  variables-Proceeds :
      (a : Action.VariablesAction) (ctx : ExecutionContext) (w : World)
      → Proceeds (execute_variables m a ctx w)
  unfolding execute_variables
  variables-Proceeds a ctx w =
      then_continue (set_rendered m (template_vars m ctx) a.variables) ctx w

  event-Proceeds :
      (a : Action.EventAction) (ctx : ExecutionContext) (w : World)
      → Proceeds (execute_event m a ctx w)
  unfolding execute_event
  event-Proceeds a ctx w = proceed-Proceeds (render_data m a.event_data ctx w) _ (λ _ _ _. refl)

  scene-Proceeds :
      (a : Action.SceneAction) (ctx : ExecutionContext) (w : World)
      → Proceeds (execute_scene m a ctx w)
  unfolding execute_scene
  scene-Proceeds a ctx w =
      then_continue (call_service m (text "scene") (text "turn_on") (scene_data a) false) ctx w

  end-Proceeds :
      (completed continue_on_timeout : Bool) (ctx : ExecutionContext) (w : World)
      → Proceeds (end_wait m completed continue_on_timeout ctx w)
  unfolding end_wait
  end-Proceeds true b ctx w = refl
  end-Proceeds false true ctx w = refl
  end-Proceeds false false ctx w = tt

  trigger-Proceeds :
      (a : Action.WaitForTriggerAction) (ctx : ExecutionContext) (w : World)
      → Proceeds (execute_wait_for_trigger m a ctx w)
  unfolding execute_wait_for_trigger
  trigger-Proceeds a ctx w =
      proceed-Proceeds (wait_timeout m a.timeout ctx w) (sleep_then_end m a.continue_on_timeout)
        (λ t ctx w.
          proceed-Proceeds (sleep_some m t ctx w) (λ _. end_wait m false a.continue_on_timeout)
            (λ _. end-Proceeds false a.continue_on_timeout))

  template-Proceeds :
      (a : Action.WaitTemplateAction) (ctx : ExecutionContext) (w : World)
      → Proceeds (execute_wait_template m a ctx w)
  unfolding execute_wait_template
  template-Proceeds a ctx w =
      proceed-Proceeds (wait_timeout m a.timeout ctx w) (poll_then_end m a) (λ t ctx w.
        proceed-Proceeds (poll_from_now m a.wait_template (unwrap_or t (3600 * per_second)) ctx w)
          (λ b. end_wait m b a.continue_on_timeout) (λ b. end-Proceeds b a.continue_on_timeout))

  choose-Proceeds :
      (options : ChooseOptions) (otherwise : M World ActionResult) (e : EvalContext)
      → ((ctx : ExecutionContext) (w : World) → Proceeds (otherwise ctx w))
      → (ctx : ExecutionContext) (w : World) → Proceeds (execute_choose m options otherwise e ctx w)
  unfolding execute
  choose-Proceeds no_option otherwise e h ctx w = h ctx w
  choose-Proceeds (option conditions actions options) otherwise e h ctx w =
      proceed-Proceeds (evaluate_choose_conditions m e conditions ctx w) _ (λ b ctx w.
        if-Proceeds b _ _ ctx w (then_continue (execute m actions) ctx w)
          (choose-Proceeds options otherwise e h ctx w))

  default-Proceeds :
      (actions : Actions) (ctx : ExecutionContext) (w : World)
      → Proceeds
          ((if is_empty actions then pure continue else execute m actions >> pure continue) ctx w)
  default-Proceeds actions ctx w =
      if-Proceeds (is_empty actions) _ _ ctx w refl (then_continue (execute m actions) ctx w)

  finish-Proceeds :
      (loop : M World (Unit {0})) (ctx : ExecutionContext) (w : World)
      → Proceeds (finish_repeat loop ctx w)
  unfolding finish_repeat
  finish-Proceeds loop ctx w = then_continue (loop >> update end_repeat) ctx w

  repeat-Proceeds :
      (c : RepeatConfig) (ctx : ExecutionContext) (w : World) → Proceeds (execute_repeat m c ctx w)
  unfolding execute
  repeat-Proceeds (count n actions) ctx w =
      proceed-Proceeds (count_value m n ctx w)
        (λ total. finish_repeat (count_loop (execute m actions) total total 1))
        (λ total. finish-Proceeds (count_loop (execute m actions) total total 1))
  repeat-Proceeds (for_each v actions) ctx w =
      proceed-Proceeds (items_of m v ctx w)
        (λ items. finish_repeat (each_loop (execute m actions) (length items) items 1))
        (λ items. finish-Proceeds (each_loop (execute m actions) (length items) items 1))
  repeat-Proceeds (while_all conditions actions) ctx w =
      finish-Proceeds (while_loop (all_hold m conditions) (execute m actions) max_iterations 1) ctx
        w
  repeat-Proceeds (until_all conditions actions) ctx w =
      finish-Proceeds (until_loop (all_hold m conditions) (execute m actions) max_iterations 1) ctx
        w

  join-Proceeds :
      (branched : Branched World) (ctx : ExecutionContext) → Proceeds (join_branches ctx branched)
  unfolding join_branches
  join-Proceeds (none, w) ctx = tt
  join-Proceeds (some [], w) ctx = refl
  join-Proceeds (some (ok r ∷ results), w) ctx = join-Proceeds (some results, w) ctx
  join-Proceeds (some (err e ∷ results), w) ctx = tt

  pub execute_action-Proceeds :
      (a : Action) (ctx : ExecutionContext) (w : World)
      → IsNoStop a
      → Proceeds (execute_action m a ctx w)
  unfolding execute execute_service execute_condition
  execute_action-Proceeds (Action.service a) ctx w h =
      enabled-Proceeds a.enabled _ (parts-Proceeds (split_once a.service 46) a) ctx w
  execute_action-Proceeds (Action.delay a) ctx w h =
      enabled-Proceeds a.enabled _ (delay-Proceeds a) ctx w
  execute_action-Proceeds (Action.wait_for_trigger a) ctx w h =
      enabled-Proceeds a.enabled _ (trigger-Proceeds a) ctx w
  execute_action-Proceeds (Action.wait_template a) ctx w h =
      enabled-Proceeds a.enabled _ (template-Proceeds a) ctx w
  execute_action-Proceeds (Action.variables a) ctx w h =
      enabled-Proceeds a.enabled _ (variables-Proceeds a) ctx w
  execute_action-Proceeds (Action.choose options default enabled) ctx w h =
      enabled-Proceeds enabled _
        (λ ctx. choose-Proceeds options _ (to_eval_context ctx) (default-Proceeds default) ctx) ctx
        w
  execute_action-Proceeds (Action.branch conditions taken otherwise enabled) ctx w h =
      enabled-Proceeds enabled _
        (λ ctx w.
          proceed-Proceeds (evaluate_choose_conditions m (to_eval_context ctx) conditions ctx w) _
            (λ b ctx w.
              if-Proceeds b _ _ ctx w (then_continue (execute m taken) ctx w)
                (default-Proceeds otherwise ctx w)))
        ctx w
  execute_action-Proceeds (Action.repeat config enabled) ctx w h =
      enabled-Proceeds enabled _ (repeat-Proceeds config) ctx w
  execute_action-Proceeds (Action.sequence actions enabled) ctx w h =
      enabled-Proceeds enabled _ (then_continue (execute m actions)) ctx w
  execute_action-Proceeds (Action.parallel branches enabled) ctx w h =
      enabled-Proceeds enabled _ (λ ctx w. join-Proceeds (run_branches m branches ctx w) ctx) ctx w
  execute_action-Proceeds (Action.condition a) ctx w h =
      enabled-Proceeds a.enabled _ (λ ctx w. condition-Proceeds _ ctx w) ctx w
  execute_action-Proceeds (Action.stop a) ctx w h = absurd h
  execute_action-Proceeds (Action.event a) ctx w h =
      enabled-Proceeds a.enabled _ (event-Proceeds a) ctx w
  execute_action-Proceeds (Action.scene a) ctx w h =
      enabled-Proceeds a.enabled _ (scene-Proceeds a) ctx w
