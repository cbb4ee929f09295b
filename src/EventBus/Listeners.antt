-- ===== src/EventBus/Listeners.antt =====
-- The ids that `listen_sync` of crates/ha-event-bus/src/lib.rs gives out tell the callbacks apart, and
-- `remove_sync_listener` removes the callback of its id.
use homeassistant_rs.Base.{
  ℕ, suc, ◌+◌, ◌^◌, ◌≡◌, ◌≤◌, ◌<◌, refl, ◌∙◌, List, [], ◌∷◌, ◌++◌, arith, ==_iff, ◌==◌, list_eq,
  nat_eq, if◌then◌else◌, length, length-append, unwrap_or, ltb, ◌&&◌,
}
use homeassistant_rs.Base.Map
use homeassistant_rs.Base.Map.{Map}
use homeassistant_rs.Core.Event.{Event, EventType}
use homeassistant_rs.EventBus.{
  Broadcast, EventBus, Listener, ListenerId, SyncCallback, u64, count_listeners, with_capacity,
  subscribe, fire, listen_sync, remove_sync_listener, sync_listener_count, subscribe_all,
}
use homeassistant_rs.EventBus.Totals.{total, total-push, total-remove_first}

module _ {Json World : Type 0} where
  count_listeners-insert :
      (t : EventType) (xs : List (Listener Json World))
      (m : Map EventType (List (Listener Json World)))
      → count_listeners (Map.insert t xs m) + length (unwrap_or (Map.lookup t m) [])
        ≡ count_listeners m + length xs
  unfolding Map.insert Map.lookup count_listeners
  count_listeners-insert t xs [] = omega arith
  count_listeners-insert t xs ((u, ys) ∷ m) = ground (arith, count_listeners-insert t xs m)

module _ {Json World : Type 0} {broadcast : Broadcast (Event Json)} where
  -- How many callbacks have that id.
  abbrev pub holders : EventBus World broadcast → ListenerId → ℕ
  holders bus id = total id bus.sync_listeners

  -- No id is given twice, and none that is still to come is in use.
  abbrev pub IsFresh : EventBus World broadcast → Type 0
  IsFresh bus =
      (id : ListenerId) → (holders bus id ≤ 1) × (bus.next_listener_id ≤ id → holders bus id ≡ 0)

  holders-listen_sync :
      (t : EventType) (callback : SyncCallback Json World) (bus : EventBus World broadcast)
      (a : ListenerId)
      → holders (listen_sync t callback bus).1 a
        ≡ holders bus a + (if bus.next_listener_id == a then 1 else 0)
  unfolding listen_sync
  holders-listen_sync t callback bus a =
      ground (arith, total-push a t (bus.next_listener_id, callback) bus.sync_listeners)

  holders-remove_sync_listener :
      (id a : ListenerId) (bus : EventBus World broadcast)
      → holders (remove_sync_listener id bus) a
          + (if id == a && ltb 0 (holders bus a) then 1 else 0)
        ≡ holders bus a
  unfolding remove_sync_listener
  holders-remove_sync_listener id a bus = total-remove_first a id bus.sync_listeners

  count-listen_sync :
      (t : EventType) (callback : SyncCallback Json World) (bus : EventBus World broadcast)
      → sync_listener_count (listen_sync t callback bus).1 ≡ suc (sync_listener_count bus)
  unfolding listen_sync sync_listener_count
  count-listen_sync t callback bus =
      let old = unwrap_or (Map.lookup t bus.sync_listeners) [] in
      let x : Listener Json World = (bus.next_listener_id, callback) in
      omega (
        arith,
        count_listeners-insert t (old ++ x ∷ []) bus.sync_listeners,
        length-append old (x ∷ []),
      )

  id-listen_sync :
      (t : EventType) (callback : SyncCallback Json World) (bus : EventBus World broadcast)
      → let (id, b) = listen_sync t callback bus in
        (id ≡ bus.next_listener_id) × (b.next_listener_id ≡ u64 (bus.next_listener_id + 1))
  unfolding listen_sync
  id-listen_sync t callback bus = (refl, refl)

  -- A registration adds one callback, whose id no other has; removing it by that id leaves each id
  -- with as many callbacks as before the registration.
  pub remove-listen :
      (t : EventType) (callback : SyncCallback Json World) (bus : EventBus World broadcast)
      → IsFresh bus
      → let (id, b) = listen_sync t callback bus in
        (holders bus id ≡ 0)
        × (holders b id ≡ 1)
        × (sync_listener_count b ≡ suc (sync_listener_count bus))
        × ((a : ListenerId) → holders (remove_sync_listener id b) a ≡ holders bus a)
  remove-listen t callback bus fresh =
      let (id, b) = listen_sync t callback bus in
      let added = holders-listen_sync t callback bus in
      let (same, next) = id-listen_sync t callback bus in
      (
        ground (arith, same, (fresh id).1),
        ground (arith, same, (fresh id).1, added id, ==_iff bus.next_listener_id id),
        count-listen_sync t callback bus,
        λ a. ground (
          arith,
          same,
          (fresh a).1,
          added a,
          holders-remove_sync_listener id a b,
          ==_iff id a,
          ==_iff bus.next_listener_id a,
        ),
      )

  listen_sync-IsFresh :
      (t : EventType) (callback : SyncCallback Json World) (bus : EventBus World broadcast)
      → bus.next_listener_id + 1 < 2 ^ 64
      → IsFresh bus
      → IsFresh (listen_sync t callback bus).1
  listen_sync-IsFresh t callback bus small fresh a =
      let next : (listen_sync t callback bus).1.next_listener_id ≡ bus.next_listener_id + 1 =
        (id-listen_sync t callback bus).1 ∙ omega arith in
      (
        ground (
          arith,
          holders-listen_sync t callback bus a,
          (fresh a).0,
          (fresh a).1,
          ==_iff bus.next_listener_id a,
        ),
        λ h. ground (
          arith,
          next,
          holders-listen_sync t callback bus a,
          (fresh a).1,
          ==_iff bus.next_listener_id a,
        ),
      )

  remove_sync_listener-IsFresh :
      (id : ListenerId) (bus : EventBus World broadcast)
      → IsFresh bus
      → IsFresh (remove_sync_listener id bus)
  unfolding remove_sync_listener
  remove_sync_listener-IsFresh id bus fresh a = (
    ground (arith, holders-remove_sync_listener id a bus, (fresh a).0),
    λ h. ground (arith, holders-remove_sync_listener id a bus, (fresh a).1 h),
  )

-- The calls on the bus.
pub data Call (Json World : Type 0) : Type 0 where
  listen_call : EventType → SyncCallback Json World → Call Json World
  remove_call : ListenerId → Call Json World
  subscribe_call : EventType → Call Json World
  fire_call : Event Json → Call Json World

module _ {Json World : Type 0} {broadcast : Broadcast (Event Json)} where
  unfoldable pub operate :
      Call Json World → World → EventBus World broadcast → World × EventBus World broadcast
  unfolding listen_sync remove_sync_listener subscribe fire
  operate (listen_call t callback) w bus = (w, (listen_sync t callback bus).1)
  operate (remove_call id) w bus = (w, remove_sync_listener id bus)
  operate (subscribe_call t) w bus = (w, (subscribe t bus).1)
  operate (fire_call event) w bus = fire event bus w

  unfoldable pub run :
      List (Call Json World) → World → EventBus World broadcast → World × EventBus World broadcast
  unfolding operate
  run [] w bus = (w, bus)
  run (c ∷ cs) w bus = let (v, b) = operate c w bus in run cs v b

  subscribe-sync :
      (t : EventType) (bus : EventBus World broadcast)
      → let b = (subscribe t bus).1 in
        (b.sync_listeners ≡ bus.sync_listeners) × (b.next_listener_id ≡ bus.next_listener_id)
  unfolding subscribe subscribe_all
  subscribe-sync t bus = (ground arith, ground arith)

  operate-next_listener_id :
      (c : Call Json World) (w : World) (bus : EventBus World broadcast)
      → bus.next_listener_id + 1 < 2 ^ 64
      → (operate c w bus).1.next_listener_id ≤ bus.next_listener_id + 1
  unfolding operate fire remove_sync_listener
  operate-next_listener_id (listen_call t callback) w bus h =
      omega (arith, (id-listen_sync t callback bus).1)
  operate-next_listener_id (remove_call id) w bus h = omega arith
  operate-next_listener_id (subscribe_call t) w bus h = omega (arith, (subscribe-sync t bus).1)
  operate-next_listener_id (fire_call event) w bus h = omega arith

  operate-IsFresh :
      (c : Call Json World) (w : World) (bus : EventBus World broadcast)
      → bus.next_listener_id + 1 < 2 ^ 64
      → IsFresh bus
      → IsFresh (operate c w bus).1
  unfolding operate fire
  operate-IsFresh (listen_call t callback) w bus h fresh =
      listen_sync-IsFresh t callback bus h fresh
  operate-IsFresh (remove_call id) w bus h fresh = remove_sync_listener-IsFresh id bus fresh
  operate-IsFresh (subscribe_call t) w bus h fresh =
      let (same, next) = subscribe-sync t bus in
      λ id. (rw same (fresh id).0, λ g. rw same ((fresh id).1 (omega (arith, next))))
  operate-IsFresh (fire_call event) w bus h fresh = fresh

  run-IsFresh :
      (cs : List (Call Json World)) (w : World) (bus : EventBus World broadcast)
      → bus.next_listener_id + length cs < 2 ^ 64
      → IsFresh bus
      → IsFresh (run cs w bus).1
  unfolding run
  run-IsFresh [] w bus h fresh = fresh
  run-IsFresh (c ∷ cs) w bus h fresh =
      let small : bus.next_listener_id + 1 < 2 ^ 64 = omega arith in
      let (v, b) = operate c w bus in
      run-IsFresh cs v b (omega (arith, operate-next_listener_id c w bus small))
        (operate-IsFresh c w bus small fresh)

module _ {Json World : Type 0} (broadcast : Broadcast (Event Json)) where
  -- After fewer than 2⁶⁴ - 1 calls on a new bus, each callback has an id of its own, and the next id is
  -- above them all.
  pub run-new-IsFresh :
      (cs : List (Call Json World)) (w : World) (capacity : ℕ)
      → length cs + 1 < 2 ^ 64
      → IsFresh (run cs w (with_capacity {broadcast = broadcast} capacity)).1
  unfolding with_capacity
  run-new-IsFresh cs w capacity h =
      run-IsFresh cs w (with_capacity {broadcast = broadcast} capacity) (omega arith)
        (λ id. (omega arith, λ g. refl))
