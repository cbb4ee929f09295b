-- ===== src/ConfigEntries/Lifecycle.antt =====
-- crates/ha-config-entries/src/state_machine.rs, and `ConfigEntryState` of entry.rs: the states of a
-- config entry and the transitions that the code allows.
pub mod Graph
pub mod Delay
mod Tests
use homeassistant_rs.Base.{Bool, true, false, String, Result, ok, err, if◌then◌else◌}
use homeassistant_rs.Base.Text.{Text, text}

pub data ConfigEntryState : Type 0 where
  not_loaded setup_in_progress loaded setup_error setup_retry : ConfigEntryState
  migration_error unload_in_progress failed_unload : ConfigEntryState

unfoldable pub is_recoverable : ConfigEntryState → Bool
is_recoverable loaded = true
is_recoverable setup_error = true
is_recoverable setup_retry = true
is_recoverable not_loaded = true
is_recoverable _ = false

pub record InvalidTransition : Type 0 where
  pub from : ConfigEntryState
  pub to : ConfigEntryState
  pub reason : Text

unfoldable pub valid : ConfigEntryState → ConfigEntryState → Bool
valid not_loaded setup_in_progress = true
valid setup_in_progress loaded = true
valid setup_in_progress setup_error = true
valid setup_in_progress setup_retry = true
valid setup_in_progress migration_error = true
valid setup_error setup_in_progress = true
valid setup_error unload_in_progress = true
valid setup_retry setup_in_progress = true
valid setup_retry unload_in_progress = true
valid loaded unload_in_progress = true
valid unload_in_progress not_loaded = true
valid unload_in_progress failed_unload = true
valid _ _ = false

unfoldable pub transition_error_reason : ConfigEntryState → ConfigEntryState → Text
transition_error_reason migration_error _ = text "MigrationError is terminal - entry cannot recover"
transition_error_reason failed_unload _ = text "FailedUnload is terminal - entry cannot recover"
transition_error_reason setup_in_progress not_loaded =
    text "Setup in progress - must complete before returning to NotLoaded"
transition_error_reason unload_in_progress loaded =
    text "Unload in progress - cannot go back to Loaded"
transition_error_reason not_loaded loaded =
    text "Cannot jump to Loaded - must go through SetupInProgress"
transition_error_reason not_loaded setup_error =
    text "Cannot jump to SetupError - must go through SetupInProgress"
transition_error_reason loaded not_loaded =
    text "Cannot jump to NotLoaded - must go through UnloadInProgress"
transition_error_reason loaded setup_in_progress =
    text "Already loaded - unload first before re-setup"
transition_error_reason _ _ = text "Invalid state transition"

unfoldable pub try_transition :
    ConfigEntryState → ConfigEntryState → Result InvalidTransition ConfigEntryState
unfolding valid
try_transition from to =
    if valid from to
    then ok to
    else err (record { from = from; to = to; reason = transition_error_reason from to })

unfoldable pub can_transition_to : ConfigEntryState → ConfigEntryState → Bool
unfolding try_transition
can_transition_to from to = elim (try_transition from to) [ ok _ ↦ true | err _ ↦ false ]
