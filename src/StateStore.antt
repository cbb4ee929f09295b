-- ===== src/StateStore.antt =====
-- crates/ha-state-store/src/lib.rs: the states of all entities and the index of ids by domain.
-- `event_bus` holds what the store has handed to `EventBus::fire_typed`, oldest first.
pub mod Lookup
pub mod Consistency
pub mod Queries
pub mod Runs
pub mod Values
mod Tests
pub mod Journal
use homeassistant_rs.Base.{
  ℕ, Bool, false, not, ◌&&◌, Option, none, some, List, [], ◌∷◌, ◌++◌, Eq, ◌==◌, nat_eq, list_eq,
  option_eq, ltb, if◌then◌else◌, filter_map, length, unwrap_or,
}
use homeassistant_rs.Base.Text.{Text, byte_len}
use homeassistant_rs.Base.Map
use homeassistant_rs.Base.Map.{Map, map_beq}
use homeassistant_rs.Base.IdSet
use homeassistant_rs.Core.EntityId.{EntityId, to_string}
use homeassistant_rs.Core.Context.{Context}
use homeassistant_rs.Core.State
use homeassistant_rs.Core.State.{State, Time, max_state_length, state_unknown}

-- `StateChangedData` and `StateReportedData` of crates/ha-core/src/lib.rs.
pub data StoreEvent (Json : Type 0) : Type 0 where
  state_changed : EntityId → Option (State Json) → Option (State Json) → StoreEvent Json
  state_reported : EntityId → State Json → Option Time → Time → StoreEvent Json

pub record StateStore (Json : Type 0) : Type 0 where
  pub states : Map Text (State Json)
  pub domain_index : Map Text (List Text)
  pub event_bus : List (StoreEvent Json × Context)

-- A state that is new and too long is replaced.
unfoldable pub limit_state : Bool → Text → Text
limit_state same_state state =
    if not same_state && ltb max_state_length (byte_len state) then state_unknown else state

module _ {Json : Type 0} where
  unfoldable pub new : StateStore Json
  new = record { states = []; domain_index = []; event_bus = [] }

  abbrev pub fire : StateStore Json → StoreEvent Json → Context → StateStore Json
  fire s event context = record s { event_bus = s.event_bus ++ (event, context) ∷ [] }

  -- The branch where state and attributes are as before.
  unfoldable pub report :
      StateStore Json → EntityId → State Json → Context → Time → State Json × StateStore Json
  report s entity_id existing context now =
      let updated = record existing { last_reported = some now } in
      let stored = record s { states = Map.insert (to_string entity_id) updated s.states } in
      (updated, fire stored (state_reported entity_id updated existing.last_reported now) context)

  -- The new `State`: `with_update` of the old one, unless there is none or the update is forced.
  unfoldable pub next_state :
      EntityId → Option (State Json) → Text → Map Text Json → Context → Bool → Time → State Json
  unfolding State.new State.with_update
  next_state entity_id none state attributes context force_update now =
      State.new entity_id state attributes context now
  next_state entity_id (some existing) state attributes context force_update now =
      if force_update
      then State.new entity_id state attributes context now
      else State.with_update existing state attributes context now

  -- `entry(domain).or_default().push(id)`, for a new entity only.
  unfoldable pub index_new :
      Option (State Json) → Text → Text → Map Text (List Text) → Map Text (List Text)
  index_new none domain id index =
      Map.insert domain (unwrap_or (Map.lookup domain index) [] ++ id ∷ []) index
  index_new (some existing) domain id index = index

  -- The branch that stores a new state.
  unfoldable pub change :
      StateStore Json
      → EntityId
      → Option (State Json)
      → Bool
      → Text
      → Map Text Json
      → Context
      → Bool
      → Time
      → State Json × StateStore Json
  unfolding limit_state next_state index_new
  change s entity_id old_state same_state state attributes context force_update now =
      let id = to_string entity_id in
      let new_state =
        next_state entity_id old_state (limit_state same_state state) attributes context
          force_update now in
      let stored = record s {
        states = Map.insert id new_state s.states;
        domain_index = index_new old_state entity_id.domain id s.domain_index;
      } in
      (new_state, fire stored (state_changed entity_id old_state (some new_state)) context)

module _ {Json : Type 0} ⦃e : Eq Json⦄ where
  -- `same_state` and `same_attr` are false where there is no old state.
  unfoldable pub set_over :
      Option (State Json)
      → StateStore Json
      → EntityId
      → Text
      → Map Text Json
      → Context
      → Bool
      → Time
      → State Json × StateStore Json
  unfolding report change map_beq
  set_over none s entity_id state attributes context force_update now =
      change s entity_id none false state attributes context force_update now
  set_over (some existing) s entity_id state attributes context force_update now =
      let same_state = existing.state == state && not force_update in
      let same_attr = map_beq existing.attributes attributes in
      if same_state && same_attr
      then report s entity_id existing context now
      else change s entity_id (some existing) same_state state attributes context force_update now

  unfoldable pub set_internal :
      StateStore Json
      → EntityId
      → Text
      → Map Text Json
      → Context
      → Bool
      → Time
      → State Json × StateStore Json
  unfolding set_over
  set_internal s entity_id state attributes context force_update now =
      set_over (Map.lookup (to_string entity_id) s.states) s entity_id state attributes context
        force_update now

  unfoldable pub set :
      StateStore Json
      → EntityId
      → Text
      → Map Text Json
      → Context
      → Time
      → State Json × StateStore Json
  unfolding set_internal
  set s entity_id state attributes context now =
      set_internal s entity_id state attributes context false now

module _ {Json : Type 0} where
  unfoldable pub get : StateStore Json → Text → Option (State Json)
  get s entity_id = Map.lookup entity_id s.states

  unfoldable pub get_state : StateStore Json → Text → Option Text
  get_state s entity_id = elim (Map.lookup entity_id s.states) [
    | none ↦ none
    | some v ↦ some v.state
  ]

  unfoldable pub is_state : StateStore Json → Text → Text → Bool
  unfolding get_state
  is_state s entity_id state = get_state s entity_id == some state

  unfoldable pub entity_ids : StateStore Json → Text → List Text
  entity_ids s domain = unwrap_or (Map.lookup domain s.domain_index) []

  unfoldable pub domain_states : StateStore Json → Text → List (State Json)
  unfolding entity_ids get
  domain_states s domain = filter_map (get s) (entity_ids s domain)

  unfoldable pub all_entity_ids : StateStore Json → List Text
  all_entity_ids s = Map.keys s.states

  unfoldable pub all : StateStore Json → List (State Json)
  all s = Map.values s.states

  unfoldable pub domains : StateStore Json → List Text
  domains s = Map.keys s.domain_index

  unfoldable pub entity_count : StateStore Json → ℕ
  entity_count s = length s.states

  -- `ids.retain(|id| id != entity_id)` where the domain has an entry.
  unfoldable pub remove_state :
      Option (State Json)
      → StateStore Json
      → EntityId
      → Context
      → Option (State Json) × StateStore Json
  remove_state none s entity_id context = (none, s)
  remove_state (some state) s entity_id context =
      let id = to_string entity_id in
      let stored = record s {
        states = Map.remove id s.states;
        domain_index = Map.modify entity_id.domain (IdSet.remove id) s.domain_index;
      } in
      (some state, fire stored (state_changed entity_id (some state) none) context)

  unfoldable pub remove :
      StateStore Json → EntityId → Context → Option (State Json) × StateStore Json
  unfolding remove_state
  remove s entity_id context =
      remove_state (Map.lookup (to_string entity_id) s.states) s entity_id context
