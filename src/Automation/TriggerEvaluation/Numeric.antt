-- ===== src/Automation/TriggerEvaluation/Numeric.antt =====
-- When a numeric state trigger of crates/ha-automation/src/trigger_eval.rs fires.
use mathlib.Core.Path.{subst}
use homeassistant_rs.Base.{
  true, ◌≡◌, refl, ap, sym, ◌↔◌, ◌++◌, Bool-cases, inl, inr, Option, none, some, ok, err, Result,
  ◌>>=◌, arith, ◌==◌, list_eq, nat_eq, ==_iff, if◌then◌else◌,
}
use homeassistant_rs.Base.Text.{Text, text}
use homeassistant_rs.Base.Json.{Value, F64}
use homeassistant_rs.Core.EntityId.{to_string}
use homeassistant_rs.Core.State.{Time}
use homeassistant_rs.Core.Event.{Event}
use homeassistant_rs.StateStore.{get_state}
use homeassistant_rs.Automation.Trigger.{
  TriggerData, invalid_config, NumericStateTrigger, NumericValue, literal, ids, EntityIdSpec,
}
use homeassistant_rs.Automation.Runtime.{Store, Runtime, StateChangedData}
use homeassistant_rs.Automation.TriggerContext.{
  state_changed, watched_change, map_err, map_state, numeric_value, resolve_threshold,
}
use homeassistant_rs.Automation.TriggerMatching.{TriggerResult, contains, crossed}
use homeassistant_rs.Automation.TriggerMatching.Crossing.{
  IsBetween, WasBetween, HasThreshold, crossed-IsBetween,
}
use homeassistant_rs.Automation.TriggerEvaluation.{eval_numeric_state_trigger, numeric_data}
use homeassistant_rs.Automation.TriggerEvaluation.Firing.{Fires}

-- What a threshold of a trigger stands for: its number, or what the state of its entity reads as.
abbrev pub IsThreshold : Runtime → Store → Option NumericValue → Option F64 → Type 0
IsThreshold rt store none bound = none ≡ bound
IsThreshold rt store (some (literal n)) bound = some n ≡ bound
IsThreshold rt store (some (NumericValue.entity id)) bound =
    (s : Text) × (v : F64) × (get_state store id ≡ some s)
    × (rt.parse_f64 s ≡ some v)
    × (some v ≡ bound)

-- An event of an entity that the trigger watches, whose new value is between the thresholds and whose
-- old one is not.
pub record Crosses (rt : Runtime) (t : NumericStateTrigger) (above below : Option F64)
    (event : Event Value) : Type 0 where
  pub change : StateChangedData
  pub value : F64
  pub kind : event.event_type ≡ state_changed
  pub reads : rt.state_changed_from_value event.event_data ≡ ok change
  pub watched : contains (ids t.entity_id) (to_string change.entity_id) ≡ true
  pub after : map_state (numeric_value rt t.attribute) change.new_state ≡ some value
  pub is_between : IsBetween above below value
  pub was_not : ¬ WasBetween above below (map_state (numeric_value rt t.attribute) change.old_state)

module _ (rt : Runtime) (store : Store) where
  resolve_threshold_lem :
      (spec : Option NumericValue) (bound : Option F64)
      → IsThreshold rt store spec bound
      → resolve_threshold rt store spec ≡ ok bound
  unfolding resolve_threshold
  resolve_threshold_lem none bound h = ap (ok) h
  resolve_threshold_lem (some (literal n)) bound h = ap (ok) h
  resolve_threshold_lem (some (NumericValue.entity id)) bound h = rw h.2 (rw h.3 (ap (ok) h.4))

pub watched_change_iff :
    (rt : Runtime) (spec : EntityIdSpec) (event : Event Value) (change : StateChangedData)
    → (watched_change rt spec event ≡ ok (some change)) ↔ (
        (event.event_type ≡ state_changed)
        × (rt.state_changed_from_value event.event_data ≡ ok change)
        × (contains (ids spec) (to_string change.entity_id) ≡ true))
unfolding watched_change map_err
watched_change_iff rt spec event change = (
  λ h. elim (Bool-cases (event.event_type == state_changed)) [
    | inl kind ↦
        let found =
          found_of (rt.state_changed_from_value event.event_data) (ground (arith, h, kind)) in
        ((==_iff event.event_type state_changed).0 kind, found.0, found.1)
    | inr kind ↦ absurd (ground (arith, h, kind))
  ],
  λ h. ground (arith, (==_iff event.event_type state_changed).1 h.0, h.1, h.2),
)
  where
    found_of :
        (r : Result Text StateChangedData)
        → (map_err (λ e. invalid_config (text "Invalid state change data: " ++ e)) r >>= λ change.
            ok (if contains (ids spec) (to_string change.entity_id) then some change else none))
          ≡ ok (some change)
        → (r ≡ ok change) × (contains (ids spec) (to_string change.entity_id) ≡ true)
    found_of (err e) h = absurd (ground (arith, h))
    found_of (ok found) h = elim (Bool-cases (contains (ids spec) (to_string found.entity_id))) [
      | inl p ↦ let same : found ≡ change = ground (arith, h, p) in (ap (ok) same, rw (sym same) p)
      | inr p ↦ absurd (ground (arith, h, p))
    ]

-- The end of `numeric_data`.
abbrev decide :
    Option F64
    → TriggerResult (Option F64)
    → TriggerResult (Option F64)
    → Option F64
    → (Option F64 → Option F64 → TriggerData)
    → TriggerResult (Option TriggerData)
decide new above below old fired = elim new [
  | none ↦ ok none
  | some v ↦ above >>= λ a. below >>= λ b. ok (if crossed a b old v then some (fired a b) else none)
]

decide-Fires :
    (new above below old : Option F64) (fired : Option F64 → Option F64 → TriggerData)
    → Fires (decide new (ok above) (ok below) old fired)
      ↔ ((v : F64) × (new ≡ some v) × (crossed above below old v ≡ true))
decide-Fires none above below old fired = (λ h. absurd h, λ h. absurd (ground (arith, h.1)))
decide-Fires (some v) above below old fired = elim (Bool-cases (crossed above below old v)) [
  | inl p ↦ (λ h. (v, refl, p), λ h. rw p tt)
  | inr p ↦ (λ h. absurd (ground (arith, h, p)), λ h. absurd (ground (arith, h.1, h.2, p)))
]

decide-Fires_at :
    (new above below old : Option F64) (fired : Option F64 → Option F64 → TriggerData)
    (r_above r_below : TriggerResult (Option F64))
    → r_above ≡ ok above
    → r_below ≡ ok below
    → Fires (decide new r_above r_below old fired)
      ↔ ((v : F64) × (new ≡ some v) × (crossed above below old v ≡ true))
decide-Fires_at new above below old fired r_above r_below p q =
    subst
      (λ r.
        Fires (decide new r r_below old fired)
        ↔ ((v : F64) × (new ≡ some v) × (crossed above below old v ≡ true)))
      (sym p)
      (subst
        (λ r.
          Fires (decide new (ok above) r old fired)
          ↔ ((v : F64) × (new ≡ some v) × (crossed above below old v ≡ true)))
        (sym q) (decide-Fires new above below old fired))

module _ (rt : Runtime) (store : Store) (now : Time) (t : NumericStateTrigger)
    (above below : Option F64) where
  numeric_data-Fires :
      (change : StateChangedData)
      → IsThreshold rt store t.above above
      → IsThreshold rt store t.below below
      → Fires (numeric_data rt store now t change) ↔ (
          (v : F64) × (map_state (numeric_value rt t.attribute) change.new_state ≡ some v)
          × (crossed above below (map_state (numeric_value rt t.attribute) change.old_state) v
              ≡ true))
  unfolding numeric_data
  numeric_data-Fires change is_above is_below =
      decide-Fires_at (map_state (numeric_value rt t.attribute) change.new_state) above below
        (map_state (numeric_value rt t.attribute) change.old_state) _
        (resolve_threshold rt store t.above) (resolve_threshold rt store t.below)
        (resolve_threshold_lem rt store t.above above is_above)
        (resolve_threshold_lem rt store t.below below is_below)

  watched_change-Fires :
      (r : TriggerResult (Option StateChangedData))
      → Fires (
          r >>= λ found. elim found [
            | none ↦ ok none
            | some change ↦ numeric_data rt store now t change
          ])
        ↔ ((change : StateChangedData) × (r ≡ ok (some change))
            × Fires (numeric_data rt store now t change))
  watched_change-Fires (err e) = (λ h. absurd h, λ h. absurd (ground (arith, h.1)))
  watched_change-Fires (ok none) = (λ h. absurd h, λ h. absurd (ground (arith, h.1)))
  watched_change-Fires (ok (some change)) = (
    λ h. (change, refl, h),
    λ h.
        let same : h.0 ≡ change = ground (arith, h.1) in
        subst (λ c. Fires (numeric_data rt store now t c)) same h.2,
  )

  -- With at least one threshold, a numeric state trigger fires exactly on a `state_changed` event of a
  -- watched entity whose new value is strictly between the thresholds and whose old value, if it had
  -- one, was not. This is so whatever the `for` and the `value_template` of the trigger are, and a
  -- threshold is a number or what the state of an entity reads as.
  pub eval_numeric_state_trigger-Fires_iff :
      (event : Event Value)
      → HasThreshold above below
      → IsThreshold rt store t.above above
      → IsThreshold rt store t.below below
      → Fires (eval_numeric_state_trigger rt store now t event) ↔ Crosses rt t above below event
  unfolding eval_numeric_state_trigger
  eval_numeric_state_trigger-Fires_iff event some_threshold is_above is_below = (
    λ h.
        let found = (watched_change-Fires (watched_change rt t.entity_id event)).0 h in
        let head = (watched_change_iff rt t.entity_id event found.0).0 found.1 in
        let last = (numeric_data-Fires found.0 is_above is_below).0 found.2 in
        let cross =
          (crossed-IsBetween above below (old_value found.0) last.0 some_threshold).0 last.2 in
        record {
          change = found.0;
          value = last.0;
          kind = head.0;
          reads = head.1;
          watched = head.2;
          after = last.1;
          is_between = cross.0;
          was_not = cross.1;
        },
    λ c. (watched_change-Fires (watched_change rt t.entity_id event)).1 (
      c.change,
      (watched_change_iff rt t.entity_id event c.change).1 (c.kind, c.reads, c.watched),
      (numeric_data-Fires c.change is_above is_below).1 (
        c.value,
        c.after,
        (crossed-IsBetween above below (old_value c.change) c.value some_threshold).1
            (c.is_between, c.was_not),
      ),
    ),
  )
    where
      old_value : StateChangedData → Option F64
      old_value change = map_state (numeric_value rt t.attribute) change.old_state
