-- ===== src/ConfigEntries/Manager/Setup.antt =====
-- manager.rs: `set_state`, the handlers, and setting up and unloading entries. No other task works on
-- the manager while `setup` or `unload` runs: the lock of the entry is free, and the entry that was
-- read is the entry that is there.
use homeassistant_rs.Base.{
  Bool, true, false, not, Option, none, some, list_eq, nat_eq, Result, ok, err, if◌then◌else◌,
  or_else, List, [], ◌∷◌,
}
use homeassistant_rs.Base.Text.{Text, text}
use homeassistant_rs.Base.Map
use homeassistant_rs.Base.Map.{Map}
use homeassistant_rs.ConfigEntries.Lifecycle.{
  ConfigEntryState, not_loaded, setup_in_progress, loaded, setup_error, setup_retry,
  migration_error, unload_in_progress, failed_unload, InvalidTransition, is_recoverable,
}
use homeassistant_rs.ConfigEntries.Entry.{ConfigEntry, is_disabled, try_set_state, increment_tries}
use homeassistant_rs.ConfigEntries.Manager.{
  SetupResult, UnloadResult, ConfigEntriesError, not_found, cannot_unload, setup_failed,
  unload_failed, invalid_transition, wildcard_domain, ConfigEntries, Action, ◌>>◌, pure, throw, get,
  entry_ids,
}

abbrev pub is_in_error : ConfigEntryState → Bool
is_in_error setup_error = true
is_in_error setup_retry = true
is_in_error not_loaded = true
is_in_error _ = false

abbrev pub is_not_loaded : ConfigEntryState → Bool
is_not_loaded not_loaded = true
is_not_loaded _ = false

module _ {Json Ctx : Type 0} where
  abbrev pub write_entry :
      Text
      → Result InvalidTransition (ConfigEntry Json)
      → Action (ConfigEntries Json Ctx) (Unit {0})
  write_entry entry_id (err e) s = (err (invalid_transition e), s)
  write_entry entry_id (ok e) s =
      (ok tt, record s { entries = Map.modify entry_id (λ _. e) s.entries })

  unfoldable pub set_state_of :
      Option (ConfigEntry Json)
      → Text
      → ConfigEntryState
      → Option Text
      → Action (ConfigEntries Json Ctx) (Unit {0})
  unfolding try_set_state
  set_state_of none entry_id new_state reason s = (err (not_found entry_id), s)
  set_state_of (some e) entry_id new_state reason s =
      write_entry entry_id (try_set_state e new_state reason) s

  unfoldable pub set_state :
      Text → ConfigEntryState → Option Text → Action (ConfigEntries Json Ctx) (Unit {0})
  unfolding set_state_of get
  set_state entry_id new_state reason s = set_state_of (get s entry_id) entry_id new_state reason s

  unfoldable pub register_setup_handler :
      Text
      → (ConfigEntry Json → Ctx → SetupResult)
      → ConfigEntries Json Ctx
      → ConfigEntries Json Ctx
  register_setup_handler domain handler s = record s {
    setup_handlers = Map.insert domain handler s.setup_handlers;
  }

  unfoldable pub register_unload_handler :
      Text
      → (ConfigEntry Json → Ctx → UnloadResult)
      → ConfigEntries Json Ctx
      → ConfigEntries Json Ctx
  register_unload_handler domain handler s = record s {
    unload_handlers = Map.insert domain handler s.unload_handlers;
  }

  -- By domain, then by the wildcard; no handler is a success.
  unfoldable pub call_setup : ConfigEntries Json Ctx → ConfigEntry Json → Ctx → SetupResult
  call_setup s e context =
      elim (or_else (Map.lookup e.domain s.setup_handlers)
        (Map.lookup wildcard_domain s.setup_handlers)) [
          | none ↦ SetupResult.success
          | some handler ↦ handler e context
        ]

  unfoldable pub call_unload : ConfigEntries Json Ctx → ConfigEntry Json → Ctx → UnloadResult
  call_unload s e context =
      elim (or_else (Map.lookup e.domain s.unload_handlers)
        (Map.lookup wildcard_domain s.unload_handlers)) [
          | none ↦ UnloadResult.success
          | some handler ↦ handler e context
        ]

  unfoldable pub count_try : Text → Action (ConfigEntries Json Ctx) (Unit {0})
  unfolding increment_tries
  count_try entry_id s =
      (ok tt, record s { entries = Map.modify entry_id increment_tries s.entries })

  -- The `match result` of `setup`.
  unfoldable pub finish_setup : Text → SetupResult → Action (ConfigEntries Json Ctx) (Unit {0})
  unfolding set_state count_try
  finish_setup entry_id (SetupResult.auth_failed reason) = do
    set_state entry_id setup_error (some reason)
    throw (setup_failed reason)
  finish_setup entry_id (SetupResult.failed reason) = do
    set_state entry_id setup_error (some reason)
    throw (setup_failed reason)
  finish_setup entry_id SetupResult.migration_failed = do
    set_state entry_id migration_error none
    throw (setup_failed (text "Migration failed"))
  finish_setup entry_id (SetupResult.not_ready reason) = do
    count_try entry_id
    set_state entry_id setup_retry (some reason)
    pure tt
  finish_setup entry_id SetupResult.success = do set_state entry_id loaded none; pure tt

  -- What `setup` does once it holds the lock of the entry; `e` is the entry as it was read before.
  unfoldable pub setup_locked :
      Text → ConfigEntry Json → Ctx → Action (ConfigEntries Json Ctx) (Unit {0})
  unfolding set_state call_setup finish_setup
  setup_locked entry_id e context = do
    set_state entry_id setup_in_progress none
    λ s. finish_setup entry_id (call_setup s e context) s

  abbrev pub with_context :
      Option Ctx
      → ConfigEntriesError
      → (Ctx → Action (ConfigEntries Json Ctx) (Unit {0}))
      → Action (ConfigEntries Json Ctx) (Unit {0})
  with_context none e f = throw e
  with_context (some context) e f = f context

  unfoldable pub setup_of :
      Option (ConfigEntry Json) → Text → Action (ConfigEntries Json Ctx) (Unit {0})
  unfolding setup_locked is_disabled
  setup_of none entry_id s = (err (not_found entry_id), s)
  setup_of (some e) entry_id s =
      if is_disabled e
      then (ok tt, s)
      else with_context s.context (setup_failed (text "Setup context not set"))
          (setup_locked entry_id e) s

  unfoldable pub setup : Text → Action (ConfigEntries Json Ctx) (Unit {0})
  unfolding setup_of get
  setup entry_id s = setup_of (get s entry_id) entry_id s

  -- The `match result` of `unload`.
  unfoldable pub finish_unload : Text → UnloadResult → Action (ConfigEntries Json Ctx) (Unit {0})
  unfolding set_state
  finish_unload entry_id (UnloadResult.failed reason) = do
    set_state entry_id failed_unload (some reason)
    throw (unload_failed reason)
  finish_unload entry_id UnloadResult.not_supported = do
    set_state entry_id failed_unload (some (text "Unload not supported"))
    throw (unload_failed (text "Integration does not support unload"))
  finish_unload entry_id UnloadResult.success = do set_state entry_id not_loaded none; pure tt

  unfoldable pub unload_error_state :
      Text → ConfigEntryState → Action (ConfigEntries Json Ctx) (Unit {0})
  unfolding set_state
  unload_error_state entry_id state s =
      if not (is_not_loaded state)
      then (do
        set_state entry_id unload_in_progress none
        set_state entry_id not_loaded none
        pure tt)
          s
      else (ok tt, s)

  unfoldable pub unload_locked :
      Text → ConfigEntry Json → Ctx → Action (ConfigEntries Json Ctx) (Unit {0})
  unfolding set_state call_unload finish_unload unload_error_state
  unload_locked entry_id e context s =
      if is_in_error e.state
      then unload_error_state entry_id e.state s
      else (do
        set_state entry_id unload_in_progress none
        λ t. finish_unload entry_id (call_unload t e context) t)
          s

  unfoldable pub unload_of :
      Option (ConfigEntry Json) → Text → Action (ConfigEntries Json Ctx) (Unit {0})
  unfolding unload_locked is_recoverable
  unload_of none entry_id s = (err (not_found entry_id), s)
  unload_of (some e) entry_id s =
      if not (is_recoverable e.state)
      then (err (cannot_unload e.state), s)
      else with_context s.context (unload_failed (text "Setup context not set"))
          (unload_locked entry_id e) s

  unfoldable pub unload : Text → Action (ConfigEntries Json Ctx) (Unit {0})
  unfolding unload_of get
  unload entry_id s = unload_of (get s entry_id) entry_id s

  unfoldable pub reload : Text → Action (ConfigEntries Json Ctx) (Unit {0})
  unfolding unload setup
  reload entry_id = do unload entry_id; setup entry_id

  -- `setup_all` polls the set-ups of its list together; here each runs to its end in the list's order.
  unfoldable pub setup_each :
      List Text
      → ConfigEntries Json Ctx
      → List (Result ConfigEntriesError (Unit {0})) × ConfigEntries Json Ctx
  unfolding setup
  setup_each [] s = ([], s)
  setup_each (id ∷ ids) s = let (r, t) = setup id s in let (rs, u) = setup_each ids t in (r ∷ rs, u)

  unfoldable pub setup_all :
      ConfigEntries Json Ctx → List (Result ConfigEntriesError (Unit {0})) × ConfigEntries Json Ctx
  unfolding setup_each entry_ids
  setup_all s = setup_each (entry_ids s) s
