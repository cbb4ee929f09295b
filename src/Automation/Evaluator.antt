-- ===== src/Automation/Evaluator.antt =====
-- crates/ha-automation/src/eval.rs: `ConditionEvaluator`. A condition is evaluated at the moment that
-- `EvalContext::now` gives.
pub mod Algebra
use homeassistant_rs.Base.{Bool, true, false, not, ok, ◌>>=◌, if◌then◌else◌}
use homeassistant_rs.Automation.Condition.{Condition, Conditions, nil, cons}
use homeassistant_rs.Automation.Runtime.{Store, Moment, Runtime}
use homeassistant_rs.Automation.EvalContext.{EvalContext, ConditionResult, now}
use homeassistant_rs.Automation.Evaluation.{
  eval_state, eval_numeric_state, eval_time, eval_sun, eval_zone, eval_template, eval_trigger,
}

module _ (rt : Runtime) (store : Store) (local_now : Moment) where
  -- `eval_and`, `eval_or`, `eval_not` and `eval_device` are the clauses of their conditions.
  unfoldable mutual
    unfolding eval_state eval_numeric_state eval_time eval_sun eval_zone eval_template eval_trigger
        now

    pub evaluate : Condition → EvalContext → ConditionResult Bool
    evaluate (Condition.and cs) ctx = evaluate_all cs ctx
    evaluate (Condition.device c) ctx = ok true
    evaluate (Condition.not c) ctx = evaluate c ctx >>= λ inner_result. ok (not inner_result)
    evaluate (Condition.numeric_state c) ctx = eval_numeric_state rt store c ctx
    evaluate (Condition.or cs) ctx = evaluate_any cs ctx
    evaluate (Condition.state c) ctx = eval_state rt store c ctx
    evaluate (Condition.sun c) ctx = eval_sun rt store c (now local_now ctx)
    evaluate (Condition.template c) ctx = eval_template rt store c ctx
    evaluate (Condition.time c) ctx = eval_time rt store c (now local_now ctx)
    evaluate (Condition.trigger c) ctx = ok (eval_trigger c ctx)
    evaluate (Condition.zone c) ctx = eval_zone rt store c

    pub evaluate_all : Conditions → EvalContext → ConditionResult Bool
    evaluate_all nil ctx = ok true
    evaluate_all (cons c cs) ctx =
        let rest = evaluate_all cs ctx in
        evaluate c ctx >>= λ holds. if holds then rest else ok false

    pub evaluate_any : Conditions → EvalContext → ConditionResult Bool
    evaluate_any nil ctx = ok false
    evaluate_any (cons c cs) ctx =
        let rest = evaluate_any cs ctx in
        evaluate c ctx >>= λ holds. if holds then ok true else rest
