-- ===== src/Script/Steps.antt =====
-- crates/ha-script/src/executor.rs: the execution of the actions that hold no others.
use homeassistant_rs.Base.{
  nat_eq, list_eq, ℕ, zero, suc, ◌+◌, ◌-◌, ◌≤◌, Bool, true, false, Option, none, some, List, [],
  ◌∷◌, ◌++◌, map, Result, ok, err, if◌then◌else◌, is_some, arith, unwrap_or, ◌*◌,
}
use homeassistant_rs.Base.Text.{Text, text, split_once}
use homeassistant_rs.Base.Map
use homeassistant_rs.Base.Map.{Map}
use homeassistant_rs.Base.Json.{Value, string, array, object, from_list, from_map}
use homeassistant_rs.Core.Event
use homeassistant_rs.ServiceRegistry
use homeassistant_rs.Automation.EvalContext.{
  EvalContext, ConditionResult, is_truthy, to_template_context,
}
use homeassistant_rs.Automation.Condition.{Conditions}
use homeassistant_rs.Automation.Evaluator.{evaluate, evaluate_all}
use homeassistant_rs.Script.Action.{
  Target, ServiceAction, DelayAction, DelaySpec, components, WaitForTriggerAction,
  WaitTemplateAction, VariablesAction, ConditionAction, StopAction, EventAction, SceneAction,
  ChooseConditions, list,
}
use homeassistant_rs.Script.Context.{ExecutionContext, set_var, to_template_vars, to_eval_context}
use homeassistant_rs.Script.Durations.{
  Duration, per_second, Parsed, parsed, unreadable, panics, from_components, parse_duration,
}
use homeassistant_rs.Script.Machine.{
  Machine, invalid_action, service_call_failed, template, stopped, action_error, condition_failed,
  timeout, Failure, error, panic, ActionResult, continue, stop, M, pure, fail, lift, ◌>>=◌, ◌>>◌,
  update, service_error_text, condition_error_text,
}
use homeassistant_rs.Script.Templates.{render, render_value, render_map}
use native.Mathlib.Decide.{dec_le}
use mathlib.Core.Logic.{dite}

abbrev insert_ids : Text → List Text → Map Text Value → Map Text Value
insert_ids k [] m = m
insert_ids k (id ∷ ids) m = Map.insert k (array (from_list (map string (id ∷ ids)))) m

-- The target of a service call goes into its data; floors and labels do not.
unfoldable pub with_target : Option Target → Map Text Value → Map Text Value
unfolding from_list
with_target none service_data = service_data
with_target (some t) service_data = insert_ids (text "area_id") t.area_id (
    insert_ids (text "device_id") t.device_id
      (insert_ids (text "entity_id") t.entity_id service_data))

-- `ctx.set_var(var_name, response); ctx.response = Some(response)`.
unfoldable pub store_response : Option Text → Option Value → ExecutionContext → ExecutionContext
unfolding set_var
store_response (some var_name) (some response) ctx = record (set_var var_name response ctx) {
  response = some response;
}
store_response _ _ ctx = ctx

unfoldable pub scene_data : SceneAction → Value
unfolding from_map
scene_data a = object (from_map ((text "entity_id", string a.scene) ∷ []))

module _ {World : Type 0} (m : Machine World) where
  abbrev pub template_vars : ExecutionContext → Value
  template_vars ctx = to_template_vars m.rt.trigger_to_value ctx

  -- `render_with_context(template, &ctx.to_template_vars())?`.
  unfoldable pub render_now : Text → M World Text
  unfolding render to_template_vars
  render_now s ctx w = (render m.rt (m.state_machine w) (template_vars ctx) s, ctx, w)

  unfoldable pub render_data : Map Text Value → M World (Map Text Value)
  unfolding render_map to_template_vars
  render_data values ctx w =
      (render_map m.rt (m.state_machine w) (template_vars ctx) values, ctx, w)

  unfoldable pub service_outcome :
      ServiceRegistry.ServiceResult Value → Result Failure (Option Value)
  unfolding service_error_text
  service_outcome (ok r) = ok r
  service_outcome (err e) = err (error (service_call_failed (service_error_text e)))

  unfoldable pub call_service : Text → Text → Value → Bool → M World (Option Value)
  unfolding service_outcome ServiceRegistry.call
  call_service domain service service_data return_response ctx w =
      let (c, w1) = m.new_context w in
      let (r, w2) =
        ServiceRegistry.call (m.service_registry w1) domain service service_data c return_response
          w1 in
      (service_outcome r, ctx, w2)

  -- What follows `split_once`.
  unfoldable pub execute_parts : Option (Text × Text) → ServiceAction → M World ActionResult
  unfolding render_data call_service with_target store_response from_map
  execute_parts none s = fail (invalid_action (text "Invalid service format: " ++ s.service))
  execute_parts (some (domain, svc_name)) s = render_data s.service_data >>= λ values.
      call_service domain svc_name (object (from_map (with_target s.target values)))
        (is_some s.response_variable)
      >>= λ result. update (store_response s.response_variable result) >> pure continue

  unfoldable pub execute_service : ServiceAction → M World ActionResult
  unfolding execute_parts split_once
  execute_service s = execute_parts (split_once s.service 46) s

  abbrev pub sleep : Duration → M World (Unit {0})
  sleep d ctx w = (ok tt, ctx, m.sleep d w)

  unfoldable pub duration_of : Text → Parsed → Result Failure Duration
  duration_of rendered (parsed d) = ok d
  duration_of rendered unreadable = err (error (template (text "Invalid duration: " ++ rendered)))
  duration_of rendered panics = err panic

  unfoldable pub delay_duration : DelaySpec → M World Duration
  unfolding render_now duration_of from_components parse_duration
  delay_duration (components hours minutes seconds milliseconds) =
      pure (from_components hours minutes seconds milliseconds)
  delay_duration (DelaySpec.template s) =
      render_now s >>= λ rendered. lift (duration_of rendered (parse_duration m.rt rendered))

  unfoldable pub execute_delay : DelayAction → M World ActionResult
  unfolding delay_duration
  execute_delay a = delay_duration a.delay >>= λ d. sleep d >> pure continue

  -- The loop of `execute_variables`, over the template variables `vars`: each variable is set as soon
  -- as it is rendered.
  unfoldable pub set_rendered : Value → Map Text Value → M World (Unit {0})
  unfolding render_value set_var
  set_rendered vars [] = pure tt
  set_rendered vars ((k, v) ∷ values) =
      let rest = set_rendered vars values in
      (λ ctx w. (render_value m.rt (m.state_machine w) vars v, ctx, w)) >>= λ rendered.
      update (set_var k rendered) >> rest

  unfoldable pub execute_variables : VariablesAction → M World ActionResult
  unfolding set_rendered to_template_vars
  execute_variables a ctx w = (set_rendered (template_vars ctx) a.variables >> pure continue) ctx w

  unfoldable pub after_condition : ConditionResult Bool → M World ActionResult
  unfolding condition_error_text
  after_condition (err e) = fail (action_error (condition_error_text e))
  after_condition (ok true) = pure continue
  after_condition (ok false) =
      λ ctx. (if ctx.stop_on_condition_fail then fail condition_failed else pure continue) ctx

  unfoldable pub execute_condition : ConditionAction → M World ActionResult
  unfolding to_eval_context after_condition
  execute_condition a ctx w =
      after_condition
        (evaluate m.rt (m.state_machine w) (m.local_now w) a.condition (to_eval_context ctx)) ctx w

  unfoldable pub execute_stop : StopAction → M World ActionResult
  execute_stop a = if a.error then fail (stopped a.stop) else pure stop

  unfoldable pub execute_event : EventAction → M World ActionResult
  unfolding render_data Event.new from_map
  execute_event a = render_data a.event_data >>= λ values ctx w.
      let (c, w1) = m.new_context w in
      let event = Event.new a.event (object (from_map values)) c (m.utc_now w1) in
      (ok continue, ctx, m.fire event w1)

  unfoldable pub execute_scene : SceneAction → M World ActionResult
  unfolding call_service scene_data
  execute_scene a =
      call_service (text "scene") (text "turn_on") (scene_data a) false >> pure continue

  -- The timeout of a wait; an unreadable one is none.
  unfoldable pub timeout_of : Parsed → Result Failure (Option Duration)
  timeout_of (parsed d) = ok (some d)
  timeout_of unreadable = ok none
  timeout_of panics = err panic

  unfoldable pub wait_timeout : Option Text → M World (Option Duration)
  unfolding render_now timeout_of parse_duration
  wait_timeout none = pure none
  wait_timeout (some s) =
      render_now s >>= λ rendered. lift (timeout_of (parse_duration m.rt rendered))

  abbrev pub sleep_some : Option Duration → M World (Unit {0})
  sleep_some none = pure tt
  sleep_some (some d) = sleep d

  -- The end of both waits: `completed` or timed out.
  unfoldable pub end_wait : Bool → Bool → M World ActionResult
  end_wait completed continue_on_timeout =
      update (λ ctx. record ctx {
        wait = some (record { trigger = none; remaining_secs = 0; completed = completed });
      })
      >> (if completed
          then pure continue
          else if continue_on_timeout
          then pure continue
          else fail timeout)

  unfoldable pub sleep_then_end : Bool → Option Duration → M World ActionResult
  unfolding end_wait
  sleep_then_end continue_on_timeout t = sleep_some t >> end_wait false continue_on_timeout

  unfoldable pub execute_wait_for_trigger : WaitForTriggerAction → M World ActionResult
  unfolding wait_timeout sleep_then_end
  execute_wait_for_trigger a = wait_timeout a.timeout >>= sleep_then_end a.continue_on_timeout

  abbrev pub poll_interval : Duration
  poll_interval = 100_000_000

  -- A round of the loop of `execute_wait_template`: what the template was rendered to ends it, or it
  -- goes on with `later`.
  unfoldable pub look :
      Result Failure Text → World → Result Failure Bool × World → Result Failure Bool × World
  unfolding is_truthy
  look (err e) w later = (err e, w)
  look (ok result) w later = if is_truthy result then (ok true, w) else later

  -- The loop, over the variables `vars`: whether the template became true before `max_wait` had
  -- passed. It ends, since each round sleeps: `rounds` bounds the time left.
  unfoldable pub poll :
      (vars : Value) (s : Text) (start max_wait rounds : ℕ) (w : World)
      → start + max_wait ≤ m.instant_now w + rounds
      → Result Failure Bool × World
  unfolding render look
  poll vars s start max_wait zero w h =
      look (render m.rt (m.state_machine w) vars s) w (ok false, w)
  poll vars s start max_wait (suc rounds) w h =
      let later =
        dite (dec_le max_wait (m.instant_now w - start)) (λ _. (ok false, w))
          (λ early.
            poll vars s start max_wait rounds (m.sleep poll_interval w)
              (omega (arith, m.sleep_advances poll_interval w))) in
      look (render m.rt (m.state_machine w) vars s) w later

  unfoldable pub poll_from_now : Text → Duration → M World Bool
  unfolding poll to_template_vars
  poll_from_now s max_wait ctx w =
      let (r, w') =
        poll (template_vars ctx) s (m.instant_now w) max_wait max_wait w (omega arith) in
      (r, ctx, w')

  unfoldable pub poll_then_end : WaitTemplateAction → Option Duration → M World ActionResult
  unfolding poll_from_now end_wait
  poll_then_end a t =
      poll_from_now a.wait_template (unwrap_or t (3600 * per_second)) >>= λ became_true.
      end_wait became_true a.continue_on_timeout

  unfoldable pub execute_wait_template : WaitTemplateAction → M World ActionResult
  unfolding wait_timeout poll_then_end
  execute_wait_template a = wait_timeout a.timeout >>= poll_then_end a

  -- `.map_err(..)?` of the evaluation of conditions.
  unfoldable pub tested : ConditionResult Bool → M World Bool
  unfolding condition_error_text
  tested (err e) = fail (action_error (condition_error_text e))
  tested (ok b) = pure b

  unfoldable pub all_hold : Conditions → M World Bool
  unfolding to_eval_context tested
  all_hold cs ctx w =
      tested (evaluate_all m.rt (m.state_machine w) (m.local_now w) cs (to_eval_context ctx)) ctx w

  unfoldable pub evaluate_choose_conditions : EvalContext → ChooseConditions → M World Bool
  unfolding condition_error_text render is_truthy to_template_context
  evaluate_choose_conditions eval_ctx (ChooseConditions.template s) ctx w =
      elim (render m.rt (m.state_machine w) (to_template_context m.rt eval_ctx) s) [
        | err e ↦ (err e, ctx, w)
        | ok result ↦ (ok (is_truthy result), ctx, w)
      ]
  evaluate_choose_conditions eval_ctx (list cs) ctx w =
      elim (evaluate_all m.rt (m.state_machine w) (m.local_now w) cs eval_ctx) [
        | err e ↦ (err (error (action_error (condition_error_text e))), ctx, w)
        | ok b ↦ (ok b, ctx, w)
      ]
