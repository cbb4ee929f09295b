-- ===== src/Script/Machine.antt =====
-- What crates/ha-script/src/executor.rs works on, its errors, and its functions as functions of the
-- context and of `World`: all that services, the event bus, the store and the clock can read and
-- change.
use homeassistant_rs.Base.{ℕ, ◌+◌, ◌≤◌, ◌++◌, Result, ok, err}
use homeassistant_rs.Base.Text.{Text, text}
use homeassistant_rs.Base.Json.{Value}
use homeassistant_rs.Core.Context.{Context}
use homeassistant_rs.Core.State.{Time}
use homeassistant_rs.Core.Event.{Event}
use homeassistant_rs.ServiceRegistry.{
  ServiceRegistry, ServiceError, not_found, call_failed, invalid_data, response_not_supported,
  response_required,
}
use homeassistant_rs.Automation.Condition.{
  ConditionError, invalid_config, entity_not_found, invalid_state,
}
use homeassistant_rs.Automation.Runtime.{Store, Moment, Runtime}
use homeassistant_rs.Script.Context.{ExecutionContext}

-- The systems that an executor holds, as functions of the world: the service registry, the store, the
-- bus, `Context::new()`, the clocks (a monotonic one in nanoseconds) and `tokio::time::sleep`, which
-- sleeps for the given time or longer.
pub record Machine (World : Type 0) : Type 0 where
  pub rt : Runtime
  pub service_registry : World → ServiceRegistry Value World
  pub state_machine : World → Store
  pub fire : Event Value → World → World
  pub new_context : World → Context × World
  pub utc_now : World → Time
  pub local_now : World → Moment
  pub instant_now : World → ℕ
  pub sleep : ℕ → World → World
  pub sleep_advances : (d : ℕ) (w : World) → instant_now w + d ≤ instant_now (sleep d w)

pub data ScriptExecutorError : Type 0 where
  invalid_action service_call_failed template stopped action_error : Text → ScriptExecutorError
  condition_failed timeout max_runs_exceeded : ScriptExecutorError

-- An error, or the panic of `Duration::from_secs_f64`.
pub data Failure : Type 0 where
  error : ScriptExecutorError → Failure
  panic : Failure

pub data ActionResult : Type 0 where
  continue stop : ActionResult
  stop_with_response : Value → ActionResult

abbrev pub Outcome : Type 0 → Type 0 → Type 0
Outcome World A = Result Failure A × ExecutionContext × World

abbrev pub M : Type 0 → Type 0 → Type 0
M World A = ExecutionContext → World → Outcome World A

module _ {World A : Type 0} where
  abbrev pub pure : A → M World A
  pure a ctx w = (ok a, ctx, w)

  abbrev pub fail : ScriptExecutorError → M World A
  fail e ctx w = (err (error e), ctx, w)

  -- A result that needs no change of the world.
  abbrev pub lift : Result Failure A → M World A
  lift r ctx w = (r, ctx, w)

abbrev pub proceed : {World A B : Type 0} → Outcome World A → (A → M World B) → Outcome World B
proceed (ok a, ctx, w) f = f a ctx w
proceed (err e, ctx, w) f = (err e, ctx, w)

infixl 5 ◌>>=◌ ◌>>◌
abbrev pub ◌>>=◌ : {World A B : Type 0} → M World A → (A → M World B) → M World B
◌>>=◌ m f ctx w = proceed (m ctx w) f

abbrev pub ◌>>◌ : {World A B : Type 0} → M World A → M World B → M World B
◌>>◌ m k ctx w = proceed (m ctx w) (λ _. k)

-- `ctx.f = v`.
abbrev pub update : {World : Type 0} → (ExecutionContext → ExecutionContext) → M World (Unit {0})
update f ctx w = (ok tt, f ctx, w)

-- The texts of errors, which `to_string` gives.
unfoldable pub service_error_text : ServiceError → Text
service_error_text (not_found domain service) =
    text "service not found: " ++ (domain ++ (text "." ++ service))
service_error_text (call_failed s) = text "service call failed: " ++ s
service_error_text (invalid_data s) = text "invalid service data: " ++ s
service_error_text response_not_supported = text "service does not support responses"
service_error_text response_required = text "service requires return_response=true"

unfoldable pub condition_error_text : ConditionError → Text
condition_error_text (invalid_config s) = text "Invalid condition configuration: " ++ s
condition_error_text (ConditionError.template s) = text "Template error: " ++ s
condition_error_text (entity_not_found s) = text "Entity not found: " ++ s
condition_error_text (invalid_state s) = text "Invalid state value: " ++ s
