-- ===== src/Script/Executor/Sequencing.antt =====
-- How crates/ha-script/src/executor.rs runs the actions of a sequence one after the other.
use homeassistant_rs.Base.{arith, true, false, ◌≡◌, refl, sym, ap, ◌∙◌, Option, ok, err}
use mathlib.Core.Path.{fun_ext}
use homeassistant_rs.Base.Json.{Value}
use homeassistant_rs.Script.Action
use homeassistant_rs.Script.Action.{
  Action, Actions, nil, cons, invalid, append, ChooseOptions, no_option, option, RepeatConfig,
  count, for_each, while_all, until_all, ConditionAction, StopAction, is_empty,
}
use homeassistant_rs.Script.Machine.{
  Machine, Outcome, ActionResult, continue, M, proceed, pure, ◌>>◌,
}
use homeassistant_rs.Script.Steps.{execute_stop}
use homeassistant_rs.Script.Executor.{execute, after_action, execute_action, if_enabled}
use homeassistant_rs.Script.Executor.Proceeding.{
  Proceeds, IsNoStop, HasNoStop, execute_action-Proceeds,
}

module _ {World : Type 0} (m : Machine World) where
  after-proceed :
      (o : Outcome World ActionResult) (rest : M World (Option Value))
      → Proceeds o
      → proceed o (λ result. after_action result rest) ≡ proceed o (λ _. rest)
  unfolding after_action
  after-proceed (ok r, ctx, w) rest h = rw h refl
  after-proceed (err e, ctx, w) rest h = refl

  pub execute-cons :
      (a : Action) (actions : Actions)
      → IsNoStop a
      → execute m (cons a actions) ≡ (execute_action m a >> execute m actions)
  unfolding execute
  execute-cons a actions h = fun_ext λ ctx. fun_ext λ w.
      after-proceed (execute_action m a ctx w) (execute m actions)
        (execute_action-Proceeds m a ctx w h)

  bind_assoc :
      (x : M World ActionResult) (y z : M World (Option Value)) → (x >> (y >> z)) ≡ (x >> y >> z)
  bind_assoc x y z = fun_ext λ ctx. fun_ext λ w. at (x ctx w)
    where
      at :
          (o : Outcome World ActionResult)
          → proceed o (λ _. y >> z) ≡ proceed (proceed o (λ _. y)) (λ _. z)
      at (ok r, ctx, w) = refl
      at (err e, ctx, w) = refl

  -- A sequence whose first part has no `stop` among its own actions is executed as the first part and
  -- then, unless that fails, the second.
  pub execute-append :
      (first rest : Actions)
      → HasNoStop first
      → execute m (append first rest) ≡ (execute m first >> execute m rest)
  unfolding execute
  execute-append nil rest h = refl
  execute-append (invalid e actions) rest h = refl
  execute-append (cons a actions) rest (h, hs) =
      execute-cons a (append actions rest) h
      ∙ (ap (λ k. execute_action m a >> k) (execute-append actions rest hs)
          ∙ (bind_assoc (execute_action m a) (execute m actions) (execute m rest)
              ∙ ap (λ k. k >> execute m rest) (sym (execute-cons a actions h))))

  stop_action :
      (a : Action.StopAction) (inner : Actions)
      → a.enabled ≡ true
      → a.error ≡ false
      → execute m (cons (Action.stop a) inner) ≡ execute m nil
  unfolding execute execute_stop if_enabled after_action
  stop_action a inner p q = fun_ext λ ctx. fun_ext λ w. ground arith

  ended :
      (x : M World (Option Value)) (rest : M World (Option Value))
      → (x >> execute m nil >> pure continue >> rest) ≡ (x >> rest)
  unfolding execute
  ended x rest = fun_ext λ ctx. fun_ext λ w. at (x ctx w)
    where
      at :
          (o : Outcome World (Option Value))
          → proceed (proceed (proceed o (λ _. execute m nil)) (λ _. pure continue)) (λ _. rest)
            ≡ proceed o (λ _. rest)
      at (ok r, ctx, w) = refl
      at (err e, ctx, w) = refl

  sequence_action :
      (actions : Actions)
      → execute_action m (Action.sequence actions true) ≡ (execute m actions >> pure continue)
  unfolding execute if_enabled
  sequence_action actions = refl

  -- An enabled `stop` that is no error, inside of a nested sequence, only ends that sequence: what was
  -- before it and what follows the nested sequence are executed as if it were not there.
  pub execute_nested_stop :
      (a : Action.StopAction) (first inner rest : Actions)
      → a.enabled ≡ true
      → a.error ≡ false
      → HasNoStop first
      → execute m (cons (Action.sequence (append first (cons (Action.stop a) inner)) true) rest)
        ≡ (execute m first >> execute m rest)
  execute_nested_stop a first inner rest p q h =
      execute-cons (Action.sequence (append first (cons (Action.stop a) inner)) true) rest tt
      ∙ (ap (λ k. k >> execute m rest) (sequence_action (append first (cons (Action.stop a) inner)))
          ∙ (ap (λ (k : M World (Option Value)). k >> pure continue >> execute m rest)
                (execute-append first (cons (Action.stop a) inner) h
                  ∙ ap (λ k. execute m first >> k) (stop_action a inner p q))
              ∙ ended (execute m first) (execute m rest)))
