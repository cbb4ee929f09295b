-- ===== src/Automation/Evaluator/Algebra.antt =====
-- crates/ha-automation/src/eval.rs: how conditions of conditions are evaluated.
use homeassistant_rs.Base.{Bool, true, not, ◌≡◌, refl, ◌↔◌, ok, ◌>>=◌, arith}
use homeassistant_rs.Automation.Condition.{Condition, Conditions, nil, cons}
use homeassistant_rs.Automation.Runtime.{Store, Moment, Runtime}
use homeassistant_rs.Automation.EvalContext.{EvalContext}
use homeassistant_rs.Automation.Evaluator.{evaluate, evaluate_all, evaluate_any}

abbrev pub negated : Conditions → Conditions
negated nil = nil
negated (cons c cs) = cons (Condition.not c) (negated cs)

abbrev pub append : Conditions → Conditions → Conditions
append nil ds = ds
append (cons c cs) ds = cons c (append cs ds)

-- Each of the conditions evaluates to `b`.
abbrev pub Each : Runtime → Store → Moment → EvalContext → Bool → Conditions → Type 0
Each rt store t ctx b nil = Unit {0}
Each rt store t ctx b (cons c cs) = (evaluate rt store t c ctx ≡ ok b) × Each rt store t ctx b cs

module _ (rt : Runtime) (store : Store) (t : Moment) (ctx : EvalContext) where
  not-all :
      (cs : Conditions)
      → (evaluate_all rt store t cs ctx >>= λ b. ok (not b))
        ≡ evaluate_any rt store t (negated cs) ctx
  unfolding evaluate
  not-all nil = refl
  not-all (cons c cs) = ground (arith, not-all cs)

  not-any :
      (cs : Conditions)
      → (evaluate_any rt store t cs ctx >>= λ b. ok (not b))
        ≡ evaluate_all rt store t (negated cs) ctx
  unfolding evaluate
  not-any nil = refl
  not-any (cons c cs) = ground (arith, not-any cs)

  -- "Not all of the conditions" is evaluated as "one of them not", and "not one of them" as "all of
  -- them not": with the same answer or the same error.
  pub evaluate-de_morgan :
      (cs : Conditions)
      → (evaluate rt store t (Condition.not (Condition.and cs)) ctx
          ≡ evaluate rt store t (Condition.or (negated cs)) ctx)
        × (evaluate rt store t (Condition.not (Condition.or cs)) ctx
            ≡ evaluate rt store t (Condition.and (negated cs)) ctx)
  unfolding evaluate
  evaluate-de_morgan cs = (not-all cs, not-any cs)

  all_true :
      (cs : Conditions) → evaluate_all rt store t cs ctx ≡ ok true → Each rt store t ctx true cs
  unfolding evaluate
  all_true nil h = tt
  all_true (cons c cs) h = ground (arith, all_true cs)

  all-Each :
      (cs : Conditions) → Each rt store t ctx true cs → evaluate_all rt store t cs ctx ≡ ok true
  unfolding evaluate
  all-Each nil h = refl
  all-Each (cons c cs) h = ground (arith, all-Each cs)

  pub evaluate_all-true_iff :
      (cs : Conditions) → (evaluate_all rt store t cs ctx ≡ ok true) ↔ Each rt store t ctx true cs
  evaluate_all-true_iff cs = (all_true cs, all-Each cs)

  pub evaluate_all-append :
      (cs ds : Conditions)
      → evaluate_all rt store t (append cs ds) ctx
        ≡ evaluate rt store t
            (Condition.and (cons (Condition.and cs) (cons (Condition.and ds) nil)))
            ctx
  unfolding evaluate
  evaluate_all-append nil ds = ground arith
  evaluate_all-append (cons c cs) ds = ground (arith, evaluate_all-append cs ds)
