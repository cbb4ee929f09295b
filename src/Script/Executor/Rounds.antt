-- ===== src/Script/Executor/Rounds.antt =====
-- How many rounds the loops of crates/ha-script/src/executor.rs make.
use homeassistant_rs.Base.{
  ℕ, zero, suc, ◌+◌, ◌≤◌, ◌≡◌, refl, ap, ◌⊎◌, inl, inr, ◌==◌, nat_eq, Bool, true, false, Option,
  none, some, ok, err, if◌then◌else◌, arith, List, [], ◌∷◌, length,
}
use homeassistant_rs.Automation.Condition.{Conditions}
use homeassistant_rs.Automation.Evaluator.{evaluate_all}
use homeassistant_rs.Automation.EvalContext.{ConditionResult}
use homeassistant_rs.Base.Json.{Value}
use homeassistant_rs.Script.Context.{ExecutionContext, to_eval_context}
use homeassistant_rs.Script.Machine.{
  Machine, Outcome, Failure, ActionResult, M, proceed, update, pure,
}
use homeassistant_rs.Script.Steps.{all_hold, tested}
use homeassistant_rs.Script.Executor.{
  while_loop, until_loop, count_loop, each_loop, finish_repeat, in_round, end_repeat,
}

-- The conditions are evaluated to `b`.
abbrev pub Gives :
    {World : Type 0} → Machine World → Conditions → Bool → ExecutionContext → World → Type 0
Gives m cs b ctx w =
    evaluate_all m.rt (m.state_machine w) (m.local_now w) cs (to_eval_context ctx) ≡ ok b

-- A measure of the world that each run of the body raises by one, such as the number of its runs.
module _ {World : Type 0} (runs : World → ℕ) where
  abbrev pub AddsOne : M World (Option Value) → Type 0
  AddsOne body = (ctx : ExecutionContext) (w : World) → runs (body ctx w).2 ≡ runs w + 1

  -- A loop that returned has made between `low` and `max` rounds, and fewer than `max` only where `Stops`
  -- holds at its end; one that failed has made `max` at most.
  abbrev pub Ended :
      {A : Type 0} → (ExecutionContext → World → Type 0) → ℕ → ℕ → ℕ → Outcome World A → Type 0
  Ended Stops low max before (ok a, ctx, w) =
      (k : ℕ) × (low ≤ k) × (k ≤ max) × (runs w ≡ before + k) × ((k ≡ max) ⊎ Stops ctx w)
  Ended Stops low max before (err e, ctx, w) = runs w ≤ before + max

  -- A loop that returned has made `n` rounds, and one that failed `n` at most.
  abbrev pub Times : {A : Type 0} → ℕ → ℕ → Outcome World A → Type 0
  Times n before (ok a, ctx, w) = runs w ≡ before + n
  Times n before (err e, ctx, w) = runs w ≤ before + n

  shift-Ended :
      (Stops : ExecutionContext → World → Type 0) (low low' max before before' : ℕ)
      (o : Outcome World (Unit {0}))
      → before' ≡ before + 1
      → low' ≤ suc low
      → Ended Stops low max before' o
      → Ended Stops low' (suc max) before o
  shift-Ended Stops low low' max before before' (ok a, ctx, w) p q
        (k, at_least, at_most, total, why) =
      (
        suc k,
        omega arith,
        omega arith,
        omega arith,
        elim why [ inl all ↦ inl (omega arith) | inr stopped ↦ inr stopped ],
      )
  shift-Ended Stops low low' max before before' (err e, ctx, w) p q h = omega arith

  shift-Times :
      (n before before' : ℕ) (o : Outcome World (Unit {0}))
      → before' ≡ before + 1
      → Times n before' o
      → Times (suc n) before o
  shift-Times n before before' (ok a, ctx, w) p h = omega arith
  shift-Times n before before' (err e, ctx, w) p h = omega arith

  module _ (body : M World (Option Value)) (once : AddsOne body) where
    then-Times :
        (o : Outcome World (Option Value)) (rest : M World (Unit {0})) (n before : ℕ)
        → runs o.2 ≡ before + 1
        → ((ctx : ExecutionContext) (w : World) → Times n (runs w) (rest ctx w))
        → Times (suc n) before (proceed o (λ _. rest))
    then-Times (ok a, ctx, w) rest n before p h =
        shift-Times n before (runs w) (rest ctx w) p (h ctx w)
    then-Times (err e, ctx, w) rest n before p h = omega arith

    pub count_loop-Times :
        (total left i : ℕ) (ctx : ExecutionContext) (w : World)
        → Times left (runs w) (count_loop body total left i ctx w)
    unfolding count_loop
    count_loop-Times total zero i ctx w = omega arith
    count_loop-Times total (suc left) i ctx w =
        let start = in_round i (i == total) none ctx in
        then-Times (body start w) (count_loop body total left (i + 1)) left (runs w) (once start w)
          (count_loop-Times total left (i + 1))

    pub each_loop-Times :
        (total : ℕ) (items : List Value) (i : ℕ) (ctx : ExecutionContext) (w : World)
        → Times (length items) (runs w) (each_loop body total items i ctx w)
    unfolding each_loop
    each_loop-Times total [] i ctx w = omega arith
    each_loop-Times total (item ∷ items) i ctx w =
        let start = in_round i (i == total) (some item) ctx in
        then-Times (body start w) (each_loop body total items (i + 1)) (length items) (runs w)
          (once start w) (each_loop-Times total items (i + 1))

    then-Ended :
        (Stops : ExecutionContext → World → Type 0) (o : Outcome World (Option Value))
        (rest : M World (Unit {0})) (n before : ℕ)
        → runs o.2 ≡ before + 1
        → ((ctx : ExecutionContext) (w : World) → Ended Stops 0 n (runs w) (rest ctx w))
        → Ended Stops 0 (suc n) before (proceed o (λ _. rest))
    then-Ended Stops (ok a, ctx, w) rest n before p h =
        shift-Ended Stops 0 0 n before (runs w) (rest ctx w) p (omega arith) (h ctx w)
    then-Ended Stops (err e, ctx, w) rest n before p h = omega arith

    module _ (m : Machine World) (cs : Conditions) where
      test_cases :
          (ctx : ExecutionContext) (w : World)
          → ((e : Failure) × (all_hold m cs ctx w ≡ (err e, ctx, w)))
            ⊎ ((b : Bool) × Gives m cs b ctx w × (all_hold m cs ctx w ≡ (ok b, ctx, w)))
      unfolding all_hold tested
      test_cases ctx w =
          go (evaluate_all m.rt (m.state_machine w) (m.local_now w) cs (to_eval_context ctx)) refl
        where
          go :
              (r : ConditionResult Bool)
              → evaluate_all m.rt (m.state_machine w) (m.local_now w) cs (to_eval_context ctx) ≡ r
              → ((e : Failure) × (all_hold m cs ctx w ≡ (err e, ctx, w)))
                ⊎ ((b : Bool) × Gives m cs b ctx w × (all_hold m cs ctx w ≡ (ok b, ctx, w)))
          go (ok b) p = inr (b, p, ap (λ r. tested m r ctx w) p)
          go (err e) p = inl (_, ap (λ r. tested m r ctx w) p)

      pub while_loop-Ended :
          (left index : ℕ) (ctx : ExecutionContext) (w : World)
          → Ended
              (Gives m cs false)
              0
              left
              (runs w)
              (while_loop (all_hold m cs) body left index ctx w)
      unfolding while_loop
      while_loop-Ended zero index ctx w = (0, omega arith, omega arith, omega arith, inl refl)
      while_loop-Ended (suc left) index ctx w =
          let rest = while_loop (all_hold m cs) body left (index + 1) in
          let start = in_round index false none ctx in
          elim (test_cases ctx w) [
            | inl (e, failed) ↦ rw failed (omega arith)
            | inr (true, holds, passed) ↦ rw passed (
                then-Ended (Gives m cs false) (body start w) rest left (runs w) (once start w)
                  (while_loop-Ended left (index + 1)))
            | inr (false, holds, passed) ↦
                rw passed (0, omega arith, omega arith, omega arith, inr holds)
          ]

      -- A round of the other loop, after its body: `rest` is what follows it.
      until_round :
          (o : Outcome World (Option Value)) (rest : M World (Unit {0})) (left before : ℕ)
          → runs o.2 ≡ before + 1
          → ((ctx : ExecutionContext) (w : World)
              → Ended (Gives m cs true) 0 left (runs w) (rest ctx w))
          → Ended (Gives m cs true) 1 (suc left) before (
              proceed
                (proceed o (λ _. all_hold m cs))
                (λ should_stop. if should_stop then pure tt else rest))
      until_round (err e, ctx, w) rest left before p h = omega arith
      until_round (ok v, ctx, w) rest left before p h = elim (test_cases ctx w) [
        | inl (e, failed) ↦ rw failed (omega arith)
        | inr (true, holds, passed) ↦
            rw passed (1, omega arith, omega arith, omega arith, inr holds)
        | inr (false, holds, passed) ↦ rw passed (
            shift-Ended (Gives m cs true) 0 1 left before (runs w) (rest ctx w) p (omega arith)
              (h ctx w))
      ]

      lower-Ended :
          (n before : ℕ) (o : Outcome World (Unit {0}))
          → Ended (Gives m cs true) 1 n before o
          → Ended (Gives m cs true) 0 n before o
      lower-Ended n before (ok a, ctx, w) (k, at_least, at_most, total, why) =
          (k, omega arith, at_most, total, why)
      lower-Ended n before (err e, ctx, w) h = h

      until_rest-Ended :
          (left index : ℕ) (ctx : ExecutionContext) (w : World)
          → Ended
              (Gives m cs true)
              0
              left
              (runs w)
              (until_loop (all_hold m cs) body left index ctx w)
      unfolding until_loop
      until_rest-Ended zero index ctx w = (0, omega arith, omega arith, omega arith, inl refl)
      until_rest-Ended (suc left) index ctx w =
          let start = in_round index false none ctx in
          let rest = until_loop (all_hold m cs) body left (index + 1) in
          lower-Ended (suc left) (runs w) _ (
            until_round (body start w) rest left (runs w) (once start w)
              (until_rest-Ended left (index + 1)))

      pub until_loop-Ended :
          (left index : ℕ) (ctx : ExecutionContext) (w : World)
          → Ended
              (Gives m cs true)
              1
              (suc left)
              (runs w)
              (until_loop (all_hold m cs) body (suc left) index ctx w)
      unfolding until_loop
      until_loop-Ended left index ctx w =
          let start = in_round index false none ctx in
          until_round (body start w) (until_loop (all_hold m cs) body left (index + 1)) left
            (runs w) (once start w) (until_rest-Ended left (index + 1))

  pub finish-Times :
      (n before : ℕ) (loop : M World (Unit {0})) (ctx : ExecutionContext) (w : World)
      → Times n before (loop ctx w)
      → Times n before (finish_repeat loop ctx w)
  unfolding finish_repeat
  finish-Times n before loop ctx w h = finished (loop ctx w) h
    where
      finished :
          (o : Outcome World (Unit {0}))
          → Times n before o
          → Times n before
              (proceed (proceed o (λ _. update end_repeat)) (λ _. pure ActionResult.continue))
      finished (ok a, ctx, w) h = h
      finished (err e, ctx, w) h = h

  pub finish-Ended :
      (m : Machine World) (cs : Conditions) (b : Bool) (low max before : ℕ)
      (loop : M World (Unit {0})) (ctx : ExecutionContext) (w : World)
      → Ended (Gives m cs b) low max before (loop ctx w)
      → Ended (Gives m cs b) low max before (finish_repeat loop ctx w)
  unfolding finish_repeat end_repeat to_eval_context
  finish-Ended m cs b low max before loop ctx w h = finished (loop ctx w) h
    where
      finished :
          (o : Outcome World (Unit {0}))
          → Ended (Gives m cs b) low max before o
          → Ended
              (Gives m cs b)
              low
              max
              before
              (proceed (proceed o (λ _. update end_repeat)) (λ _. pure ActionResult.continue))
      finished (ok a, ctx, w) h = h
      finished (err e, ctx, w) h = h
