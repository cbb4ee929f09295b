-- ===== src/ConfigEntries/Manager.antt =====
-- crates/ha-config-entries/src/manager.rs: the entries, their three indexes and the handlers.
-- `Ctx` stands for `SetupContext`, the handles that a handler is given. A handler is a function of
-- its arguments; what it does to the bus, the states and the services is not modelled here.
-- `file` is what the storage file of the entries holds; the outcome of a write is the argument `disk`.
pub mod Entries
pub mod Setup
pub mod Indexes
pub mod Outcomes
pub mod Integrity
pub mod Lawful
pub mod Modify
pub mod Operations
pub mod Runs
mod Tests
pub mod Stealing
pub mod Unloading
use homeassistant_rs.Base.{
  ℕ, Bool, Option, none, some, List, [], ◌∷◌, Eq, list_eq, nat_eq, pair_eq, Result, ok, err, filter,
  filter_map, length, unwrap_or,
}
use homeassistant_rs.Base.Text.{Text, text}
use homeassistant_rs.Base.Map
use homeassistant_rs.Base.Map.{Map}
use homeassistant_rs.Base.IdSet
use homeassistant_rs.ConfigEntries.Lifecycle.{ConfigEntryState, InvalidTransition}
use homeassistant_rs.ConfigEntries.Entry.{ConfigEntry, is_loaded}

pub data SetupResult : Type 0 where
  success : SetupResult
  failed not_ready auth_failed : Text → SetupResult
  migration_failed : SetupResult

pub data UnloadResult : Type 0 where
  success : UnloadResult
  failed : Text → UnloadResult
  not_supported : UnloadResult

-- `StorageError` of crates/ha-registries/src/storage.rs; what an I/O or JSON error says is left out.
pub data StorageError : Type 0 where
  io json : StorageError
  not_found : Text → StorageError
  version_mismatch migration_required : Text → ℕ → ℕ → StorageError

pub data ConfigEntriesError : Type 0 where
  not_found : Text → ConfigEntriesError
  already_exists : Text → Text → ConfigEntriesError
  cannot_unload : ConfigEntryState → ConfigEntriesError
  setup_failed unload_failed : Text → ConfigEntriesError
  invalid_transition : InvalidTransition → ConfigEntriesError
  storage : StorageError → ConfigEntriesError

abbrev pub wildcard_domain : Text
wildcard_domain = text "*"

pub record ConfigEntries (Json Ctx : Type 0) : Type 0 where
  pub file : Option (List (ConfigEntry Json))
  pub entries : Map Text (ConfigEntry Json)
  pub by_domain : Map Text (List Text)
  pub by_unique_id : Map (Text × Text) Text
  pub setup_handlers : Map Text (ConfigEntry Json → Ctx → SetupResult)
  pub unload_handlers : Map Text (ConfigEntry Json → Ctx → UnloadResult)
  pub context : Option Ctx

-- A method that may fail: what was written before the error stays written.
abbrev pub Action : Type 0 → Type 0 → Type 0
Action S A = S → Result ConfigEntriesError A × S

abbrev pub continue : {S A B : Type 0} → Result ConfigEntriesError A → (A → Action S B) → Action S B
continue (ok a) f s = f a s
continue (err e) f s = (err e, s)

infixl 5 ◌>>=◌ ◌>>◌
abbrev pub ◌>>=◌ : {S A B : Type 0} → Action S A → (A → Action S B) → Action S B
◌>>=◌ m f s = let (r, t) = m s in continue r f t

abbrev pub ◌>>◌ : {S A B : Type 0} → Action S A → Action S B → Action S B
m >> n = m >>= λ _. n

abbrev pub pure : {S A : Type 0} → A → Action S A
pure a s = (ok a, s)

abbrev pub throw : {S A : Type 0} → ConfigEntriesError → Action S A
throw e s = (err e, s)

abbrev pub insert_unique_id :
    Option Text → Text → Text → Map (Text × Text) Text → Map (Text × Text) Text
insert_unique_id none domain entry_id index = index
insert_unique_id (some unique_id) domain entry_id index =
    Map.insert (domain, unique_id) entry_id index

abbrev pub remove_unique_id : Option Text → Text → Map (Text × Text) Text → Map (Text × Text) Text
remove_unique_id none domain index = index
remove_unique_id (some unique_id) domain index = Map.remove (domain, unique_id) index

module _ {Json Ctx : Type 0} where
  unfoldable pub new : Option (List (ConfigEntry Json)) → ConfigEntries Json Ctx
  new file = record {
    file = file;
    entries = [];
    by_domain = [];
    by_unique_id = [];
    setup_handlers = [];
    unload_handlers = [];
    context = none;
  }

  unfoldable pub set_context : Ctx → ConfigEntries Json Ctx → ConfigEntries Json Ctx
  set_context context s = record s { context = some context }

  unfoldable pub index_entry : ConfigEntry Json → ConfigEntries Json Ctx → ConfigEntries Json Ctx
  index_entry e s = record s {
    entries = Map.insert e.entry_id e s.entries;
    by_domain =
        Map.insert e.domain
          (IdSet.insert e.entry_id (unwrap_or (Map.lookup e.domain s.by_domain) [])) s.by_domain;
    by_unique_id = insert_unique_id e.unique_id e.domain e.entry_id s.by_unique_id;
  }

  unfoldable pub unindex_entry : ConfigEntry Json → ConfigEntries Json Ctx → ConfigEntries Json Ctx
  unindex_entry e s = record s {
    by_domain = Map.modify e.domain (IdSet.remove e.entry_id) s.by_domain;
    by_unique_id = remove_unique_id e.unique_id e.domain s.by_unique_id;
    entries = Map.remove e.entry_id s.entries;
  }

  unfoldable pub get : ConfigEntries Json Ctx → Text → Option (ConfigEntry Json)
  get s entry_id = Map.lookup entry_id s.entries

  -- The ids that the domain index holds.
  unfoldable pub domain_ids : ConfigEntries Json Ctx → Text → List Text
  domain_ids s domain = unwrap_or (Map.lookup domain s.by_domain) []

  unfoldable pub get_by_domain : ConfigEntries Json Ctx → Text → List (ConfigEntry Json)
  unfolding domain_ids get
  get_by_domain s domain = filter_map (get s) (domain_ids s domain)

  unfoldable pub get_loaded_by_domain : ConfigEntries Json Ctx → Text → List (ConfigEntry Json)
  unfolding get_by_domain is_loaded
  get_loaded_by_domain s domain = filter is_loaded (get_by_domain s domain)

  unfoldable pub get_by_unique_id : ConfigEntries Json Ctx → Text → Text → Option (ConfigEntry Json)
  unfolding get
  get_by_unique_id s domain unique_id = elim (Map.lookup (domain, unique_id) s.by_unique_id) [
    | none ↦ none
    | some entry_id ↦ get s entry_id
  ]

  unfoldable pub entry_ids : ConfigEntries Json Ctx → List Text
  entry_ids s = Map.keys s.entries

  unfoldable pub len : ConfigEntries Json Ctx → ℕ
  len s = length s.entries
