-- ===== src/ConfigEntries/Lifecycle/Graph.antt =====
-- The diagram at the top of state_machine.rs, and what follows from it.
use homeassistant_rs.Base.{◌≡◌, ◌≢◌, refl, ◌↔◌, ◌⊎◌, true, arith, ok}
use homeassistant_rs.ConfigEntries.Lifecycle.{
  ConfigEntryState, not_loaded, setup_in_progress, loaded, setup_error, setup_retry,
  migration_error, unload_in_progress, failed_unload, valid, try_transition, is_recoverable,
}

infix 40 ◌⟶◌ ◌⟶*◌
pub data ◌⟶◌ : ConfigEntryState → ConfigEntryState → Type 0 where
  start : not_loaded ⟶ setup_in_progress
  succeed : setup_in_progress ⟶ loaded
  fail : setup_in_progress ⟶ setup_error
  wait : setup_in_progress ⟶ setup_retry
  fail_migration : setup_in_progress ⟶ migration_error
  restart : setup_error ⟶ setup_in_progress
  retry : setup_retry ⟶ setup_in_progress
  unload_error : setup_error ⟶ unload_in_progress
  unload_retry : setup_retry ⟶ unload_in_progress
  unload : loaded ⟶ unload_in_progress
  unloaded : unload_in_progress ⟶ not_loaded
  fail_unload : unload_in_progress ⟶ failed_unload

pub data ◌⟶*◌ : ConfigEntryState → ConfigEntryState → Type 0 where
  here : {s : ConfigEntryState} → s ⟶* s
  step : {s t u : ConfigEntryState} → s ⟶ t → t ⟶* u → s ⟶* u

pub ruleset edges = (
  start, succeed, fail, wait, fail_migration, restart, retry, unload_error, unload_retry, unload,
  unloaded, fail_unload,
)

valid-⟶ : (s t : ConfigEntryState) → valid s t ≡ true → s ⟶ t
unfolding valid
valid-⟶ s t h = grind (arith, edges)

⟶-valid : {s t : ConfigEntryState} → s ⟶ t → valid s t ≡ true
unfolding valid
⟶-valid start = refl
⟶-valid succeed = refl
⟶-valid fail = refl
⟶-valid wait = refl
⟶-valid fail_migration = refl
⟶-valid restart = refl
⟶-valid retry = refl
⟶-valid unload_error = refl
⟶-valid unload_retry = refl
⟶-valid unload = refl
⟶-valid unloaded = refl
⟶-valid fail_unload = refl

-- A transition is accepted, with the new state for its result, exactly along an edge of the diagram.
pub try_transition-ok_iff :
    (s t u : ConfigEntryState) → (try_transition s t ≡ ok u) ↔ (s ⟶ t) × (t ≡ u)
unfolding try_transition
try_transition-ok_iff s t u =
    (λ h. (valid-⟶ s t (ground arith), ground arith), λ h. ground (arith, ⟶-valid h.0, h.1))

pub ⟶*-trans : {s t u : ConfigEntryState} → s ⟶* t → t ⟶* u → s ⟶* u
⟶*-trans here r = r
⟶*-trans (step e p) r = step e (⟶*-trans p r)

abbrev pub IsTerminal : ConfigEntryState → Type 0
IsTerminal s = (s ≡ migration_error) ⊎ (s ≡ failed_unload)

no_edge_out : {s t : ConfigEntryState} → s ⟶ t → ¬ IsTerminal s
unfolding valid
no_edge_out {s} {t} e h = ground (arith, ⟶-valid e)

-- The entry never leaves a state where migration or unload failed.
pub terminal_stays : {s t : ConfigEntryState} → s ⟶* t → IsTerminal s → s ≡ t
terminal_stays here h = refl
terminal_stays (step e p) h = absurd (no_edge_out e h)

abbrev pub IsStable : ConfigEntryState → Type 0
IsStable s = (s ≢ setup_in_progress) × (s ≢ unload_in_progress) × ¬ IsTerminal s

-- `is_recoverable` holds of the states that are neither terminal nor in progress.
pub is_recoverable_iff : (s : ConfigEntryState) → (is_recoverable s ≡ true) ↔ IsStable s
unfolding is_recoverable
is_recoverable_iff s = (λ h. ground arith, λ h. ground arith)
