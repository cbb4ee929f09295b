-- ===== src/StateStore/Lookup.antt =====
-- What `set` and `remove` of the state store do to a later `get`.
use homeassistant_rs.Base.{
  ◌≡◌, refl, Bool, false, not, ◌&&◌, Option, none, some, arith, Eq, ==_iff, ◌==◌, list_eq, nat_eq,
  if◌then◌else◌,
}
use homeassistant_rs.Base.Text.{Text}
use homeassistant_rs.Base.Map
use homeassistant_rs.Base.Map.{Map, map_laws, lookup-insert, lookup-remove}
use homeassistant_rs.Core.EntityId.{EntityId, to_string}
use homeassistant_rs.Core.Context.{Context}
use homeassistant_rs.Core.State.{State, Time}
use homeassistant_rs.StateStore.{
  StateStore, set_over, report, change, set_internal, get, remove, remove_state,
}

module _ {Json : Type 0} where
  pub lookup-report :
      (s : StateStore Json) (entity_id : EntityId) (existing : State Json) (context : Context)
      (now : Time) (j : Text)
      → let (v, s') = report s entity_id existing context now in
        Map.lookup j s'.states
        ≡ (if to_string entity_id == j then some v else Map.lookup j s.states)
  unfolding report
  lookup-report s entity_id existing context now j =
      lookup-insert (to_string entity_id) j _ s.states

  pub lookup-change :
      (s : StateStore Json) (entity_id : EntityId) (old : Option (State Json)) (same : Bool)
      (state : Text) (attributes : Map Text Json) (context : Context) (force : Bool) (now : Time)
      (j : Text)
      → let (v, s') = change s entity_id old same state attributes context force now in
        Map.lookup j s'.states
        ≡ (if to_string entity_id == j then some v else Map.lookup j s.states)
  unfolding change
  lookup-change s entity_id old same state attributes context force now j =
      lookup-insert (to_string entity_id) j _ s.states

module _ {Json : Type 0} ⦃e : Eq Json⦄ where
  pub lookup-set_over :
      (old : Option (State Json)) (s : StateStore Json) (entity_id : EntityId) (state : Text)
      (attributes : Map Text Json) (context : Context) (force : Bool) (now : Time) (j : Text)
      → let (v, s') = set_over old s entity_id state attributes context force now in
        Map.lookup j s'.states
        ≡ (if to_string entity_id == j then some v else Map.lookup j s.states)
  unfolding set_over report change
  lookup-set_over none s entity_id state attributes context force now j =
      lookup-change s entity_id none false state attributes context force now j
  lookup-set_over (some existing) s entity_id state attributes context force now j = ground (
    arith,
    lookup-report s entity_id existing context now j,
    lookup-change s entity_id (some existing) (existing.state == state && not force) state
        attributes context force now j,
  )

  -- After `set`, a `get` of the entity gives the state that `set` returned, and a `get` of any other
  -- text gives what it gave before.
  pub get-set_internal :
      (s : StateStore Json) (entity_id : EntityId) (state : Text) (attributes : Map Text Json)
      (context : Context) (force : Bool) (now : Time) (j : Text)
      → let (v, s') = set_internal s entity_id state attributes context force now in
        get s' j ≡ (if to_string entity_id == j then some v else get s j)
  unfolding set_internal get
  get-set_internal s entity_id state attributes context force now j =
      lookup-set_over (Map.lookup (to_string entity_id) s.states) s entity_id state attributes
        context force now j

module _ {Json : Type 0} where
  pub lookup-remove_state :
      (s : StateStore Json) (entity_id : EntityId) (context : Context) (old : Option (State Json))
      (j : Text)
      → Map.lookup (to_string entity_id) s.states ≡ old
      → let (v, s') = remove_state old s entity_id context in
        Map.lookup j s'.states ≡ (if to_string entity_id == j then none else Map.lookup j s.states)
  unfolding remove_state
  lookup-remove_state s entity_id context none j h = ground (arith, ==_iff (to_string entity_id) j)
  lookup-remove_state s entity_id context (some v) j h =
      lookup-remove (to_string entity_id) j s.states

  -- `remove` returns what `get` gave for the entity; afterwards a `get` of the entity gives nothing,
  -- and a `get` of any other text gives what it gave before.
  pub get-remove :
      (s : StateStore Json) (entity_id : EntityId) (context : Context) (j : Text)
      → let (v, s') = remove s entity_id context in
        (v ≡ get s (to_string entity_id))
        × (get s' j ≡ (if to_string entity_id == j then none else get s j))
  unfolding remove get remove_state
  get-remove s entity_id context j = (
    ground arith,
    lookup-remove_state s entity_id context (Map.lookup (to_string entity_id) s.states) j refl,
  )
