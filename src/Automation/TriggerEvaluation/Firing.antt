-- ===== src/Automation/TriggerEvaluation/Firing.antt =====
-- Which events the state triggers of crates/ha-automation/src/trigger_eval.rs fire on.
use homeassistant_rs.Base.{
  true, false, ◌≡◌, none, some, ok, err, ap, ◌∙◌, arith, Option, list_eq, nat_eq, ==_iff,
}
use homeassistant_rs.Base.Text.{Text}
use homeassistant_rs.Base.Json.{Value}
use homeassistant_rs.Core.EntityId.{to_string}
use homeassistant_rs.Core.State.{Time}
use homeassistant_rs.Core.Event.{Event}
use homeassistant_rs.Automation.Trigger.{TriggerData, StateTrigger, StateMatch, matches, ids}
use homeassistant_rs.Automation.Runtime.{Runtime, StateChangedData}
use homeassistant_rs.Automation.TriggerContext.{
  state_changed, watched_change, map_err, watched_value, map_state,
}
use homeassistant_rs.Automation.TriggerMatching.{TriggerResult, contains, state_passes}
use homeassistant_rs.Automation.TriggerMatching.States.{state_passes_unchanged}
use homeassistant_rs.Automation.TriggerEvaluation.{eval_state_trigger, state_data}

-- The evaluation gave the data of a trigger that fired.
abbrev pub Fires : TriggerResult (Option TriggerData) → Type 0
Fires (ok none) = ⊥
Fires (ok (some d)) = Unit
Fires (err e) = ⊥

-- An event of an entity that the trigger watches, in which the state stays the same.
pub record KeepsState (rt : Runtime) (t : StateTrigger) (event : Event Value)
    (change : StateChangedData) (v : Text) : Type 0 where
  pub kind : event.event_type ≡ state_changed
  pub reads : rt.state_changed_from_value event.event_data ≡ ok change
  pub watched : contains (ids t.entity_id) (to_string change.entity_id) ≡ true
  pub before : map_state (watched_value rt none) change.old_state ≡ some v
  pub after : map_state (watched_value rt none) change.new_state ≡ some v

-- A trigger on a state to go to, and on nothing else, which has `v` among its states.
pub record GoesTo (t : StateTrigger) (wanted : StateMatch) (v : Text) : Type 0 where
  pub no_attribute : t.attribute ≡ none
  pub no_from : t.from ≡ none
  pub to_wanted : t.to ≡ some wanted
  pub is_wanted : matches wanted v ≡ true
  pub no_not_from : contains t.not_from v ≡ false
  pub no_not_to : contains t.not_to v ≡ false

module _ (rt : Runtime) (utc_now : Time) (t : StateTrigger) (wanted : StateMatch) (v : Text) where
  found :
      (event : Event Value) (change : StateChangedData)
      → KeepsState rt t event change v
      → watched_change rt t.entity_id event ≡ ok (some change)
  unfolding watched_change map_err
  found event change k = ground (arith, ==_iff event.event_type state_changed)

  passes_at :
      GoesTo t wanted v → (a b : Option Text) → a ≡ some v → b ≡ some v → state_passes t a b ≡ true
  passes_at g a b p q = rw p (
      rw q (
        state_passes_unchanged t wanted v g.no_from g.to_wanted g.is_wanted g.no_not_from
          g.no_not_to))

  passes :
      (event : Event Value) (change : StateChangedData)
      → KeepsState rt t event change v
      → GoesTo t wanted v
      → state_passes t
          (map_state (watched_value rt t.attribute) change.old_state)
          (map_state (watched_value rt t.attribute) change.new_state)
        ≡ true
  passes event change k g =
      passes_at g _ _
        (ap (λ a. map_state (watched_value rt a) change.old_state) g.no_attribute ∙ k.before)
        (ap (λ a. map_state (watched_value rt a) change.new_state) g.no_attribute ∙ k.after)

  Fires_at_lem :
      (change : StateChangedData)
      → state_passes t
          (map_state (watched_value rt t.attribute) change.old_state)
          (map_state (watched_value rt t.attribute) change.new_state)
        ≡ true
      → Fires (ok (state_data rt utc_now t change))
  unfolding state_data
  Fires_at_lem change h = rw h tt

  -- A state trigger with `to`, without `from` and without an attribute fires on a `state_changed`
  -- event of a watched entity in which the state stays the same, where `to` lists that state and
  -- `not_from` and `not_to` do not. This is so whatever its `for` is.
  pub eval_state_trigger_refires :
      (event : Event Value) (change : StateChangedData)
      → KeepsState rt t event change v
      → GoesTo t wanted v
      → Fires (eval_state_trigger rt utc_now t event)
  unfolding eval_state_trigger
  eval_state_trigger_refires event change k g =
      rw (found event change k) (Fires_at_lem change (passes event change k g))
