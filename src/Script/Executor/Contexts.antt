-- ===== src/Script/Executor/Contexts.antt =====
-- What crates/ha-script/src/executor.rs does with the context of an execution.
use homeassistant_rs.Base.{
  true, ◌≡◌, refl, sym, ap, ◌∙◌, ◌↔◌, Option, none, some, [], Result, ok, err, List, ◌∷◌, length,
}
use homeassistant_rs.Base.Json.{Value}
use homeassistant_rs.Script.Action.{
  Action, RepeatConfig, count, for_each, while_all, until_all, Branches, no_branch, fork,
}
use homeassistant_rs.Script.Context.{ExecutionContext}
use homeassistant_rs.Script.Machine.{
  Machine, Outcome, ScriptExecutorError, Failure, error, panic, ActionResult, continue, M, proceed,
  pure, update,
}
use homeassistant_rs.Script.Steps.{all_hold}
use homeassistant_rs.Script.Executor.{
  execute, execute_action, execute_repeat, while_loop, until_loop, count_loop, each_loop,
  finish_repeat, max_iterations, end_repeat, count_value, items_of, run_branches, join_branches,
  check_all, if_enabled, Branched, next_branch, add_result,
}

-- An error that is kept while the branches after it are run.
abbrev pub keep_error :
    ScriptExecutorError → Result Failure ActionResult → Result Failure ActionResult
keep_error e (err panic) = err panic
keep_error e (err (error later)) = err (error e)
keep_error e (ok result) = err (error e)

-- A run that did not fail has left no repeat in the context.
abbrev pub Cleared : {World A : Type 0} → Outcome World A → Type 0
Cleared (ok r, ctx, w) = ctx.repeat ≡ none
Cleared (err e, ctx, w) = Unit

same_iff : {A P : Type 0} {x y z : A} → x ≡ y → ((y ≡ z) ↔ P) → ((x ≡ z) ↔ P)
same_iff p (to, from) = (λ h. to (sym p ∙ h), λ h. p ∙ from h)

module _ {World : Type 0} where
  proceed-Cleared :
      {A B : Type 0} (o : Outcome World A) (f : A → M World B)
      → ((a : A) (ctx : ExecutionContext) (w : World) → Cleared (f a ctx w))
      → Cleared (proceed o f)
  proceed-Cleared (ok a, ctx, w) f h = h a ctx w
  proceed-Cleared (err e, ctx, w) f h = tt

  finish-Cleared :
      (loop : M World (Unit {0})) (ctx : ExecutionContext) (w : World)
      → Cleared (finish_repeat loop ctx w)
  unfolding finish_repeat end_repeat
  finish-Cleared loop ctx w = finished (loop ctx w)
    where
      finished :
          (o : Outcome World (Unit {0}))
          → Cleared (proceed (proceed o (λ _. update end_repeat)) (λ _. pure continue))
      finished (ok a, ctx, w) = refl
      finished (err e, ctx, w) = tt

module _ {World : Type 0} (m : Machine World) where
  -- A repeat that does not fail leaves no repeat in the context, also where one was there before.
  pub execute_repeat-Cleared :
      (c : RepeatConfig) (ctx : ExecutionContext) (w : World) → Cleared (execute_repeat m c ctx w)
  unfolding execute
  execute_repeat-Cleared (count n actions) ctx w =
      proceed-Cleared (count_value m n ctx w)
        (λ total. finish_repeat (count_loop (execute m actions) total total 1))
        (λ total. finish-Cleared (count_loop (execute m actions) total total 1))
  execute_repeat-Cleared (for_each v actions) ctx w =
      proceed-Cleared (items_of m v ctx w)
        (λ items. finish_repeat (each_loop (execute m actions) (length items) items 1))
        (λ items. finish-Cleared (each_loop (execute m actions) (length items) items 1))
  execute_repeat-Cleared (while_all cs actions) ctx w =
      finish-Cleared (while_loop (all_hold m cs) (execute m actions) max_iterations 1) ctx w
  execute_repeat-Cleared (until_all cs actions) ctx w =
      finish-Cleared (until_loop (all_hold m cs) (execute m actions) max_iterations 1) ctx w

  -- The world after a branch and those that follow it, which `others` gives; none follow a panic.
  abbrev pub after_branch : Outcome World (Option Value) → (World → World) → World
  after_branch (err panic, ctx, w) others = w
  after_branch (err (error e), ctx, w) others = others w
  after_branch (ok r, ctx, w) others = others w

  -- The world after all branches, each from the same context.
  abbrev pub after_branches : Branches → ExecutionContext → World → World
  after_branches no_branch ctx w = w
  after_branches (fork actions branches) ctx w =
      after_branch (execute m actions ctx w) (after_branches branches ctx)

  -- The result, where the branches after a first one come to `others`: a panic at once, the error of
  -- the first branch that has one unless a later one panics, and no error otherwise.
  abbrev pub joined :
      Outcome World (Option Value)
      → (World → Result Failure ActionResult)
      → Result Failure ActionResult
  joined (err panic, ctx, w) others = err panic
  joined (err (error e), ctx, w) others = keep_error e (others w)
  joined (ok r, ctx, w) others = others w

  abbrev pub all_joined : Branches → ExecutionContext → World → Result Failure ActionResult
  all_joined no_branch ctx w = ok continue
  all_joined (fork actions branches) ctx w =
      joined (execute m actions ctx w) (all_joined branches ctx)

  -- No branch fails at its turn.
  abbrev pub AllSucceed : Branches → ExecutionContext → World → Type 0
  AllSucceed no_branch ctx w = Unit {0}
  AllSucceed (fork actions branches) ctx w =
      ((r : Option Value) × ((execute m actions ctx w).0 ≡ ok r))
      × AllSucceed branches ctx (execute m actions ctx w).2

  kept :
      (e : ScriptExecutorError) (results : List (Result ScriptExecutorError (Option Value)))
      → err (error e) ≡ keep_error e (check_all results)
  unfolding check_all
  kept e [] = refl
  kept e (ok r ∷ results) = kept e results
  kept e (err later ∷ results) = refl

  join-next :
      (o : Outcome World (Option Value)) (ctx : ExecutionContext) (others : World → Branched World)
      (rest : World → Result Failure ActionResult)
      → ((w : World) → (join_branches ctx (others w)).0 ≡ rest w)
      → (join_branches ctx (next_branch o.0 o.2 (others o.2))).0 ≡ joined o rest
  unfolding join_branches next_branch
  join-next (err panic, ctx', w) ctx others rest h = refl
  join-next (err (error e), ctx', w) ctx others rest h =
      with_error (others w) ∙ ap (keep_error e) (h w)
    where
      with_error :
          (b : Branched World)
          → (join_branches ctx (add_result (err e) b)).0 ≡ keep_error e (join_branches ctx b).0
      with_error (none, w) = refl
      with_error (some results, w) = kept e results
  join-next (ok r, ctx', w) ctx others rest h = with_response (others w) ∙ h w
    where
      with_response :
          (b : Branched World)
          → (join_branches ctx (add_result (ok r) b)).0 ≡ (join_branches ctx b).0
      with_response (none, w) = refl
      with_response (some results, w) = refl

  world-add_result :
      (r : Result ScriptExecutorError (Option Value)) (b : Branched World)
      → (add_result r b).1 ≡ b.1
  world-add_result r (none, w) = refl
  world-add_result r (some results, w) = refl

  world-next :
      (o : Outcome World (Option Value)) (others : World → Branched World) (rest : World → World)
      → ((w : World) → (others w).1 ≡ rest w)
      → (next_branch o.0 o.2 (others o.2)).1 ≡ after_branch o rest
  unfolding next_branch
  world-next (err panic, ctx, w) others rest h = refl
  world-next (err (error e), ctx, w) others rest h = world-add_result (err e) (others w) ∙ h w
  world-next (ok r, ctx, w) others rest h = world-add_result (ok r) (others w) ∙ h w

  branches_world :
      (branches : Branches) (ctx : ExecutionContext) (w : World)
      → (run_branches m branches ctx w).1 ≡ after_branches branches ctx w
  unfolding execute
  branches_world no_branch ctx w = refl
  branches_world (fork actions branches) ctx w =
      world-next (execute m actions ctx w) (run_branches m branches ctx)
        (after_branches branches ctx) (branches_world branches ctx)

  branches_result :
      (branches : Branches) (ctx : ExecutionContext) (w : World)
      → (join_branches ctx (run_branches m branches ctx w)).0 ≡ all_joined branches ctx w
  unfolding execute join_branches
  branches_result no_branch ctx w = refl
  branches_result (fork actions branches) ctx w =
      join-next (execute m actions ctx w) ctx (run_branches m branches ctx)
        (all_joined branches ctx) (branches_result branches ctx)

  first_succeeds :
      (o : Outcome World (Option Value)) (rest : World → Result Failure ActionResult)
      → joined o rest ≡ ok continue
      → ((v : Option Value) × (o.0 ≡ ok v)) × (rest o.2 ≡ ok continue)
  first_succeeds (ok v, ctx, w) rest h = ((v, refl), h)
  first_succeeds (err panic, ctx, w) rest h = cc
  first_succeeds (err (error e), ctx, w) rest h = absurd (no_error (rest w) h)
    where
      no_error : (r : Result Failure ActionResult) → keep_error e r ≡ ok continue → ⊥
      no_error (ok result) h = cc
      no_error (err panic) h = cc
      no_error (err (error later)) h = cc

  joined-ok :
      (o : Outcome World (Option Value)) (rest : World → Result Failure ActionResult)
      (v : Option Value)
      → o.0 ≡ ok v
      → rest o.2 ≡ ok continue
      → joined o rest ≡ ok continue
  joined-ok (ok r, ctx, w) rest v p h = h
  joined-ok (err e, ctx, w) rest v p h = cc

  all_joined_iff :
      (branches : Branches) (ctx : ExecutionContext) (w : World)
      → (all_joined branches ctx w ≡ ok continue) ↔ AllSucceed branches ctx w
  all_joined_iff no_branch ctx w = (λ h. tt, λ h. refl)
  all_joined_iff (fork actions branches) ctx w =
      let o = execute m actions ctx w in
      let rest = all_joined_iff branches ctx o.2 in
      (
        λ h. (
          (first_succeeds o (all_joined branches ctx) h).0,
          rest.0 (first_succeeds o (all_joined branches ctx) h).1,
        ),
        λ h. joined-ok o (all_joined branches ctx) h.0.0 h.0.1 (rest.1 h.1),
      )

  -- Parallel branches leave the context as it was, and each runs in its turn from that context, also
  -- after one that failed with an error. A panic of a branch ends the action at once as a panic. The
  -- result is otherwise the error of the first branch that has one, and the action succeeds exactly
  -- when all branches do.
  pub execute_parallel_lem :
      (branches : Branches) (ctx : ExecutionContext) (w : World)
      → ((execute_action m (Action.parallel branches true) ctx w).1 ≡ ctx)
        × ((execute_action m (Action.parallel branches true) ctx w).2
            ≡ after_branches branches ctx w)
        × ((execute_action m (Action.parallel branches true) ctx w).0 ≡ all_joined branches ctx w)
        × (((execute_action m (Action.parallel branches true) ctx w).0 ≡ ok continue)
            ↔ AllSucceed branches ctx w)
  unfolding execute if_enabled join_branches
  execute_parallel_lem branches ctx w =
      let result = branches_result branches ctx w in
      (
        (context_world (run_branches m branches ctx w)).0,
        (context_world (run_branches m branches ctx w)).1 ∙ branches_world branches ctx w,
        result,
        same_iff result (all_joined_iff branches ctx w),
      )
    where
      context_world :
          (b : Branched World) → ((join_branches ctx b).1 ≡ ctx) × ((join_branches ctx b).2 ≡ b.1)
      context_world (none, w) = (refl, refl)
      context_world (some results, w) = (refl, refl)
