-- ===== src/Automation/Evaluation/Loops.antt =====
-- The loops of crates/ha-automation/src/eval.rs that end at the first failure.
use homeassistant_rs.Base.{Bool, true, ◌≡◌, refl, ◌↔◌, List, [], ◌∷◌, ok, arith, All}
use homeassistant_rs.Automation.EvalContext.{ConditionResult, try_all}

module _ {A : Type 0} (f : A → ConditionResult Bool) where
  All-try_all : (xs : List A) → try_all f xs ≡ ok true → All (λ x. f x ≡ ok true) xs
  unfolding try_all
  All-try_all [] h = tt
  All-try_all (x ∷ xs) h = ground (arith, All-try_all xs)

  try_all-All : (xs : List A) → All (λ x. f x ≡ ok true) xs → try_all f xs ≡ ok true
  unfolding try_all
  try_all-All [] h = refl
  try_all-All (x ∷ xs) h = ground (arith, try_all-All xs)

  pub try_all-true_iff : (xs : List A) → (try_all f xs ≡ ok true) ↔ All (λ x. f x ≡ ok true) xs
  try_all-true_iff xs = (All-try_all xs, try_all-All xs)
