-- ===== src/Automation/TriggerMatching/Crossing.antt =====
-- When `crossed` of crates/ha-automation/src/trigger_eval.rs holds: the test of a numeric state trigger.
use homeassistant_rs.Base.{true, ◌≡◌, ◌↔◌, Bool-cases, inl, inr, Option, none, some, arith}
use homeassistant_rs.Base.Json.{F64, f64_lt}
use homeassistant_rs.Automation.TriggerMatching.{crossed}

abbrev pub IsAbove : Option F64 → F64 → Type 0
IsAbove none v = Unit
IsAbove (some bound) v = f64_lt bound v ≡ true

abbrev pub IsBelow : Option F64 → F64 → Type 0
IsBelow none v = Unit
IsBelow (some bound) v = f64_lt v bound ≡ true

-- Strictly between the thresholds that there are.
abbrev pub IsBetween : Option F64 → Option F64 → F64 → Type 0
IsBetween above below v = IsAbove above v × IsBelow below v

-- There was a value, and it was between the thresholds.
abbrev pub WasBetween : Option F64 → Option F64 → Option F64 → Type 0
WasBetween above below none = ⊥
WasBetween above below (some old) = IsBetween above below old

abbrev pub HasThreshold : Option F64 → Option F64 → Type 0
HasThreshold none none = ⊥
HasThreshold _ _ = Unit

pub crossed-IsBetween :
    (above below old : Option F64) (v : F64)
    → HasThreshold above below
    → (crossed above below old v ≡ true) ↔ (IsBetween above below v × ¬ WasBetween above below old)
unfolding crossed
crossed-IsBetween none none old v h = absurd h
crossed-IsBetween none (some b) none v h =
    (λ t. ((tt, ground (arith, t)), λ no. no), λ t. ground (arith, t.0.1))
crossed-IsBetween (some a) none none v h =
    (λ t. ((ground (arith, t), tt), λ no. no), λ t. ground (arith, t.0.0))
crossed-IsBetween (some a) (some b) none v h =
    (λ t. ((ground (arith, t), ground (arith, t)), λ no. no), λ t. ground (arith, t.0.0, t.0.1))
crossed-IsBetween none (some b) (some o) v h = (
  λ t. ((tt, ground (arith, t)), λ was. ground (arith, t, was.1)),
  λ t. elim (Bool-cases (f64_lt o b)) [
    | inl p ↦ absurd (t.1 (tt, p))
    | inr p ↦ ground (arith, t.0.1, p)
  ],
)
crossed-IsBetween (some a) none (some o) v h = (
  λ t. ((ground (arith, t), tt), λ was. ground (arith, t, was.0)),
  λ t. elim (Bool-cases (f64_lt a o)) [
    | inl p ↦ absurd (t.1 (p, tt))
    | inr p ↦ ground (arith, t.0.0, p)
  ],
)
crossed-IsBetween (some a) (some b) (some o) v h = (
  λ t. ((ground (arith, t), ground (arith, t)), λ was. ground (arith, t, was.0, was.1)),
  λ t. elim (Bool-cases (f64_lt a o)) [
    | inl p ↦ elim (Bool-cases (f64_lt o b)) [
      | inl q ↦ absurd (t.1 (p, q))
      | inr q ↦ ground (arith, t.0.0, t.0.1, q)
    ]
    | inr p ↦ ground (arith, t.0.0, t.0.1, p)
  ],
)
