-- ===== src/ConfigEntries/Entry.antt =====
-- crates/ha-config-entries/src/entry.rs. `Json` stands for `serde_json::Value`; the fresh ULID and
-- the present are arguments. The lock `setup_lock` is not a field: see the manager.
use homeassistant_rs.Base.{
  ℕ, ◌+◌, ◌%◌, ◌^◌, Bool, true, false, not, Option, none, some, List, [], Result, ok, ◌>>=◌,
  if◌then◌else◌, is_some, unwrap_or,
}
use homeassistant_rs.Base.Text.{Text}
use homeassistant_rs.Base.Map.{Map}
use homeassistant_rs.Core.State.{Time}
use homeassistant_rs.ConfigEntries.Lifecycle.{
  ConfigEntryState, not_loaded, setup_in_progress, loaded, setup_retry, InvalidTransition,
  try_transition, is_recoverable,
}

pub data ConfigEntrySource : Type 0 where
  user import discovery dhcp ssdp zeroconf bluetooth mqtt nupnp hassio homekit : ConfigEntrySource
  ignore reauth reconfigure system registration integration_discovery : ConfigEntrySource

pub data ConfigEntryDisabledBy : Type 0 where
  by_user : ConfigEntryDisabledBy

pub record ConfigEntry (Json : Type 0) : Type 0 where
  pub entry_id : Text
  pub domain : Text
  pub title : Text
  pub entry_data : Map Text Json
  pub options : Map Text Json
  pub version : ℕ
  pub minor_version : ℕ
  pub unique_id : Option Text
  pub source : ConfigEntrySource
  pub state : ConfigEntryState
  pub reason : Option Text
  pub error_reason_translation_key : Option Text
  pub tries : ℕ
  pub pref_disable_new_entities : Bool
  pub pref_disable_polling : Bool
  pub disabled_by : Option ConfigEntryDisabledBy
  pub discovery_keys : Map Text Json
  pub subentries : List Json
  pub created_at : Time
  pub modified_at : Time

-- `tries` is a `u32`; `+= 1` on it wraps in a release build.
abbrev pub u32 : ℕ → ℕ
u32 n = n % 2 ^ 32

abbrev is_retry : ConfigEntryState → Bool
is_retry setup_retry = true
is_retry setup_in_progress = true
is_retry _ = false

abbrev is_state_loaded : ConfigEntryState → Bool
is_state_loaded loaded = true
is_state_loaded _ = false

module _ {Json : Type 0} where
  unfoldable pub new : Text → Time → Text → Text → ConfigEntry Json
  new ulid now domain title = record {
    entry_id = ulid;
    domain = domain;
    title = title;
    entry_data = [];
    options = [];
    version = 1;
    minor_version = 1;
    unique_id = none;
    source = user;
    state = not_loaded;
    reason = none;
    error_reason_translation_key = none;
    tries = 0;
    pref_disable_new_entities = false;
    pref_disable_polling = false;
    disabled_by = none;
    discovery_keys = [];
    subentries = [];
    created_at = now;
    modified_at = now;
  }

  unfoldable pub with_unique_id : ConfigEntry Json → Text → ConfigEntry Json
  with_unique_id e unique_id = record e { unique_id = some unique_id }

  unfoldable pub is_disabled : ConfigEntry Json → Bool
  is_disabled e = is_some e.disabled_by

  unfoldable pub is_loaded : ConfigEntry Json → Bool
  is_loaded e = is_state_loaded e.state

  unfoldable pub supports_unload : ConfigEntry Json → Bool
  supports_unload e = is_recoverable e.state

  -- What `try_set_state` writes once the transition is accepted.
  unfoldable pub apply_state : ConfigEntry Json → ConfigEntryState → Option Text → ConfigEntry Json
  apply_state e new_state reason = record e {
    state = new_state;
    reason = reason;
    tries = if not (is_retry new_state) then 0 else e.tries;
  }

  unfoldable pub try_set_state :
      ConfigEntry Json
      → ConfigEntryState
      → Option Text
      → Result InvalidTransition (ConfigEntry Json)
  unfolding apply_state
  try_set_state e new_state reason = do
    _ ← try_transition e.state new_state
    ok (apply_state e new_state reason)

  unfoldable pub increment_tries : ConfigEntry Json → ConfigEntry Json
  increment_tries e = record e { tries = u32 (e.tries + 1) }

pub record ConfigEntryUpdate (Json : Type 0) : Type 0 where
  pub title : Option Text
  pub entry_data : Option (Map Text Json)
  pub options : Option (Map Text Json)
  pub unique_id : Option (Option Text)
  pub version : Option ℕ
  pub minor_version : Option ℕ
  pub pref_disable_new_entities : Option Bool
  pub pref_disable_polling : Option Bool

module _ {Json : Type 0} where
  -- The `if let Some(…)` chain of `ConfigEntries::update`.
  unfoldable pub apply_update : ConfigEntryUpdate Json → ConfigEntry Json → Time → ConfigEntry Json
  apply_update update e now = record e {
    title = unwrap_or update.title e.title;
    entry_data = unwrap_or update.entry_data e.entry_data;
    options = unwrap_or update.options e.options;
    unique_id = unwrap_or update.unique_id e.unique_id;
    version = unwrap_or update.version e.version;
    minor_version = unwrap_or update.minor_version e.minor_version;
    pref_disable_new_entities =
        unwrap_or update.pref_disable_new_entities e.pref_disable_new_entities;
    pref_disable_polling = unwrap_or update.pref_disable_polling e.pref_disable_polling;
    modified_at = now;
  }
