-- ===== src/ConfigEntries/Lifecycle/Tests.antt =====
-- The lifecycle at concrete states.
use homeassistant_rs.Base.{◌≡◌, refl, ◌↔◌, true, false, ok}
use homeassistant_rs.ConfigEntries.Lifecycle.{
  not_loaded, setup_in_progress, loaded, try_transition, can_transition_to,
}
use homeassistant_rs.ConfigEntries.Lifecycle.Graph.{◌⟶◌, try_transition-ok_iff}

loaded_only_by_setup :
    (can_transition_to not_loaded loaded ≡ false)
    × (can_transition_to not_loaded setup_in_progress ≡ true)
    × (can_transition_to setup_in_progress loaded ≡ true)
unfolding can_transition_to
loaded_only_by_setup = (refl, refl, refl)

try_transition-ok_iff_example :
    (try_transition not_loaded setup_in_progress ≡ ok setup_in_progress)
    ↔ (not_loaded ⟶ setup_in_progress) × (setup_in_progress ≡ setup_in_progress)
try_transition-ok_iff_example = try_transition-ok_iff not_loaded setup_in_progress setup_in_progress
