-- ===== src/Automation/Evaluation/Thresholds.antt =====
-- When a numeric state condition of crates/ha-automation/src/eval.rs holds.
use homeassistant_rs.Base.{
  Bool, true, false, ◌≡◌, refl, sym, ◌∙◌, ◌↔◌, Option, none, some, List, [], ◌∷◌, ok, ◌>>=◌,
  if◌then◌else◌, arith, All, All-iff, iff_trans,
}
use homeassistant_rs.Base.Text.{Text}
use homeassistant_rs.Base.Json.{Value, F64, is_nan, f64_le, f64_ge}
use homeassistant_rs.Core.State.{State}
use homeassistant_rs.StateStore.{get, get_state}
use homeassistant_rs.Automation.Trigger.{ids, NumericValue, literal}
use homeassistant_rs.Automation.Condition.{NumericStateCondition}
use homeassistant_rs.Automation.Runtime.{Store, Runtime}
use homeassistant_rs.Automation.EvalContext.{EvalContext, ConditionResult, parse_number}
use homeassistant_rs.Automation.Evaluation.{
  eval_numeric_state, numeric_holds, passes_above, passes_below,
}
use homeassistant_rs.Automation.Evaluation.Loops.{try_all-true_iff}

abbrev pub literals : Option F64 → Option NumericValue
literals none = none
literals (some a) = some (literal a)

-- The number is not at or below the lower threshold, nor at or above the upper one.
abbrev pub IsAbove : Option F64 → F64 → Type 0
IsAbove none v = Unit
IsAbove (some a) v = f64_le v a ≡ false

abbrev pub IsBelow : Option F64 → F64 → Type 0
IsBelow none v = Unit
IsBelow (some b) v = f64_ge v b ≡ false

-- The state of the entity is a number between the thresholds.
abbrev pub Lies : Runtime → Store → Option F64 → Option F64 → Text → Type 0
Lies rt store above below id =
    (s : State Value) × (v : F64) × (get store id ≡ some s)
    × (rt.parse_f64 s.state ≡ some v)
    × IsAbove above v
    × IsBelow below v

nan-le : (v a : F64) → is_nan v ≡ true → f64_le v a ≡ false
unfolding f64_le
nan-le v a h = ground arith

nan-ge : (v b : F64) → is_nan v ≡ true → f64_ge v b ≡ false
unfolding f64_ge
nan-ge v b h = ground arith

-- The condition looks at the states, and its thresholds are literals.
abbrev pub plain : NumericStateCondition → Option F64 → Option F64 → NumericStateCondition
plain c above below = record c {
  attribute = none;
  value_template = none;
  above = literals above;
  below = literals below;
}

module _ (rt : Runtime) (store : Store) where
  abbrev between : Option F64 → Option F64 → F64 → ConditionResult Bool
  between above below v = passes_above rt store (literals above) v >>= λ is_above.
      if is_above then passes_below rt store (literals below) v else ok false

  between_bounds :
      (above below : Option F64) (v : F64)
      → between above below v ≡ ok true
      → IsAbove above v × IsBelow below v
  unfolding passes_above passes_below
  between_bounds none none v h = (tt, tt)
  between_bounds none (some b) v h = (tt, ground arith)
  between_bounds (some a) none v h = (ground arith, tt)
  between_bounds (some a) (some b) v h = (ground arith, ground arith)

  bounds_between :
      (above below : Option F64) (v : F64)
      → IsAbove above v
      → IsBelow below v
      → between above below v ≡ ok true
  unfolding passes_above passes_below
  bounds_between none none v p q = refl
  bounds_between none (some b) v p q = ground arith
  bounds_between (some a) none v p q = ground arith
  bounds_between (some a) (some b) v p q = ground arith

module _ (rt : Runtime) (store : Store) (c : NumericStateCondition) (ctx : EvalContext) where
  numeric_holds_at :
      (above below : Option F64) (id : Text) (s : State Value) (v : F64)
      → get store id ≡ some s
      → rt.parse_f64 s.state ≡ some v
      → numeric_holds rt store (plain c above below) ctx id ≡ between rt store above below v
  unfolding numeric_holds
  numeric_holds_at above below id s v p q = rw (p, get_state) (rw (q, parse_number) refl)

  parsed :
      (above below : Option F64) (id : Text) (s : State Value)
      → get store id ≡ some s
      → (p : Option F64) → rt.parse_f64 s.state ≡ p
      → numeric_holds rt store (plain c above below) ctx id ≡ ok true
      → Lies rt store above below id
  unfolding numeric_holds
  parsed above below id s e none q h = absurd (ground arith)
  parsed above below id s e (some v) q h =
      let (p, r) =
        between_bounds rt store above below v (sym (numeric_holds_at above below id s v e q) ∙ h) in
      (s, v, e, q, p, r)

  lies :
      (above below : Option F64) (id : Text) (o : Option (State Value))
      → get store id ≡ o
      → numeric_holds rt store (plain c above below) ctx id ≡ ok true
      → Lies rt store above below id
  unfolding numeric_holds
  lies above below id none e h = absurd (ground arith)
  lies above below id (some s) e h = parsed above below id s e (rt.parse_f64 s.state) refl h

  holds :
      (above below : Option F64) (id : Text)
      → Lies rt store above below id
      → numeric_holds rt store (plain c above below) ctx id ≡ ok true
  holds above below id (s, v, e, q, p, r) =
      numeric_holds_at above below id s v e q ∙ bounds_between rt store above below v p r

  -- A numeric state condition on states with literal thresholds, where it has some, holds exactly when
  -- the state of each entity that it names is stored, parses as an `f64`, and is not at or below the
  -- lower threshold nor at or above the upper one.
  pub eval_numeric_state-true_iff :
      (above below : Option F64)
      → (eval_numeric_state rt store (plain c above below) ctx ≡ ok true)
        ↔ All (Lies rt store above below) (ids c.entity_id)
  unfolding eval_numeric_state
  eval_numeric_state-true_iff above below =
      iff_trans
        (try_all-true_iff (numeric_holds rt store (plain c above below) ctx) (ids c.entity_id))
        (All-iff (λ id. (lies above below id (get store id) refl, holds above below id))
          (ids c.entity_id))

-- The state of the entity parses, but as no number.
abbrev pub IsNotANumber : Runtime → Store → Text → Type 0
IsNotANumber rt store id =
    (s : State Value) × (v : F64) × (get store id ≡ some s)
    × (rt.parse_f64 s.state ≡ some v)
    × (is_nan v ≡ true)

module _ (rt : Runtime) (store : Store) where
  nan-Lies :
      (above below : Option F64) (id : Text)
      → IsNotANumber rt store id
      → Lies rt store above below id
  nan-Lies above below id (s, v, e, q, n) = (s, v, e, q, low above, high below)
    where
      low : (a : Option F64) → IsAbove a v
      low none = tt
      low (some a) = nan-le v a n

      high : (b : Option F64) → IsBelow b v
      high none = tt
      high (some b) = nan-ge v b n

  All-Lies :
      (above below : Option F64) (names : List Text)
      → All (IsNotANumber rt store) names
      → All (Lies rt store above below) names
  All-Lies above below [] h = tt
  All-Lies above below (id ∷ names) (h, rest) =
      (nan-Lies above below id h, All-Lies above below names rest)

  -- A numeric state condition on states holds, whatever its literal thresholds, where the states of all
  -- its entities parse as what is not a number.
  pub eval_numeric_state_nan :
      (c : NumericStateCondition) (ctx : EvalContext) (above below : Option F64)
      → All (IsNotANumber rt store) (ids c.entity_id)
      → eval_numeric_state rt store (plain c above below) ctx ≡ ok true
  eval_numeric_state_nan c ctx above below h =
      (eval_numeric_state-true_iff rt store c ctx above below).1
        (All-Lies above below (ids c.entity_id) h)
