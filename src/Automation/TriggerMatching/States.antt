-- ===== src/Automation/TriggerMatching/States.antt =====
-- When a state trigger of crates/ha-automation/src/trigger_eval.rs fires.
use homeassistant_rs.Base.{true, false, ◌≡◌, none, some, arith}
use homeassistant_rs.Base.Text.{Text}
use homeassistant_rs.Automation.Trigger.{StateTrigger, StateMatch, matches}
use homeassistant_rs.Automation.TriggerMatching.{state_passes, contains}

-- A state trigger with `to` and without `from` passes also where the state stays what it was.
pub state_passes_unchanged :
    (t : StateTrigger) (wanted : StateMatch) (v : Text)
    → t.from ≡ none
    → t.to ≡ some wanted
    → matches wanted v ≡ true
    → contains t.not_from v ≡ false
    → contains t.not_to v ≡ false
    → state_passes t (some v) (some v) ≡ true
unfolding state_passes
state_passes_unchanged t wanted v p q h f g = ground arith
