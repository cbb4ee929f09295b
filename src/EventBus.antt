-- ===== src/EventBus.antt =====
-- crates/ha-event-bus/src/lib.rs: the callbacks that run inside `fire`, and the channels that it sends
-- to. `Json` stands for `serde_json::Value`, and `World` for all that a callback can read and change;
-- a callback does not fire, listen or subscribe itself here. `Broadcast` is what the bus uses of
-- `tokio::sync::broadcast`.
pub mod Delivery
pub mod Totals
pub mod Listeners
pub mod Typed
mod Tests
use homeassistant_rs.Base.{
  ℕ, zero, suc, ◌+◌, ◌%◌, ◌^◌, Bool, true, false, not, ◌||◌, Option, none, some, List, [], ◌∷◌,
  ◌++◌, map, ◌==◌, list_eq, nat_eq, Result, ok, err, length, if◌then◌else◌, unwrap_or,
}
use homeassistant_rs.Base.Text.{Text, text}
use homeassistant_rs.Base.Map
use homeassistant_rs.Base.Map.{Map}
use homeassistant_rs.Core.Context.{Context}
use homeassistant_rs.Core.State.{Time}
use homeassistant_rs.Core.Event
use homeassistant_rs.Core.Event.{Event, EventType, is_match_all, match_all}

-- A sender with its channel. `subscribe` gives the new receiver; `send` gives the sender after the
-- message was sent, whether anyone receives it or not.
pub record Broadcast (Message : Type 0) : Type 1 where
  pub Sender : Type 0
  pub Receiver : Type 0
  pub channel : ℕ → Sender
  pub subscribe : Sender → Receiver × Sender
  pub send : Message → Sender → Sender

abbrev pub ListenerId : Type 0
ListenerId = ℕ

abbrev pub SyncCallback : Type 0 → Type 0 → Type 0
SyncCallback Json World = Event Json → World → World

abbrev pub Listener : Type 0 → Type 0 → Type 0
Listener Json World = ListenerId × SyncCallback Json World

abbrev pub default_channel_capacity : ℕ
default_channel_capacity = 1024

-- The counter is an `AtomicU64`; `fetch_add` wraps.
abbrev pub u64 : ℕ → ℕ
u64 n = n % 2 ^ 64

abbrev pub state_reported : EventType
state_reported = text "state_reported"

abbrev pub homeassistant_close : EventType
homeassistant_close = text "homeassistant_close"

unfoldable pub is_excluded_from_match_all : EventType → Bool
is_excluded_from_match_all event_type =
    event_type == homeassistant_close || event_type == state_reported

module _ {A : Type 0} where
  abbrev pub insert_second : A → List A → List A
  insert_second x [] = x ∷ []
  insert_second x (z ∷ zs) = z ∷ x ∷ zs

  -- The last of `x ∷ xs` before the others.
  abbrev pub rotate : A → List A → List A
  rotate x [] = x ∷ []
  rotate x (y ∷ ys) = insert_second x (rotate y ys)

  abbrev pub last_first : List A → List A
  last_first [] = []
  last_first (x ∷ xs) = rotate x xs

  -- `Vec::swap_remove`: the last element takes the place of the one that goes.
  unfoldable pub swap_remove : ℕ → List A → List A
  swap_remove i [] = []
  swap_remove zero (x ∷ xs) = last_first xs
  swap_remove (suc i) (x ∷ xs) = x ∷ swap_remove i xs

abbrev pub next_position : Option ℕ → Option ℕ
next_position none = none
next_position (some i) = some (suc i)

module _ {Json World : Type 0} where
  -- Each callback in turn.
  unfoldable pub call_each : List (Listener Json World) → Event Json → World → World
  call_each [] event w = w
  call_each ((id, callback) ∷ listeners) event w = call_each listeners event (callback event w)

  -- `iter().position(|(id, _)| *id == listener_id)`.
  unfoldable pub position : ListenerId → List (Listener Json World) → Option ℕ
  position listener_id [] = none
  position listener_id ((id, callback) ∷ listeners) =
      let rest = next_position (position listener_id listeners) in
      if id == listener_id then some 0 else rest

  -- The loop of `remove_sync_listener`.
  unfoldable pub remove_first :
      ListenerId
      → Map EventType (List (Listener Json World))
      → Map EventType (List (Listener Json World))
  unfolding position swap_remove
  remove_first listener_id [] = []
  remove_first listener_id ((event_type, listeners) ∷ m) = elim (position listener_id listeners) [
    | none ↦ (event_type, listeners) ∷ remove_first listener_id m
    | some pos ↦ (event_type, swap_remove pos listeners) ∷ m
  ]

  unfoldable pub count_listeners : Map EventType (List (Listener Json World)) → ℕ
  count_listeners [] = 0
  count_listeners ((event_type, listeners) ∷ m) = length listeners + count_listeners m

module _ {Json : Type 0} (World : Type 0) (broadcast : Broadcast (Event Json)) where
  pub record EventBus : Type 0 where
    pub listeners : Map EventType broadcast.Sender
    pub match_all_sender : broadcast.Sender
    pub sync_listeners : Map EventType (List (Listener Json World))
    pub next_listener_id : ℕ
    pub capacity : ℕ

module _ {Json World : Type 0} {broadcast : Broadcast (Event Json)} where
  unfoldable pub with_capacity : ℕ → EventBus World broadcast
  with_capacity capacity = record {
    listeners = [];
    match_all_sender = broadcast.channel capacity;
    sync_listeners = [];
    next_listener_id = 1;
    capacity = capacity;
  }

  unfoldable pub new : EventBus World broadcast
  unfolding with_capacity
  new = with_capacity default_channel_capacity

  unfoldable pub subscribe_all :
      EventBus World broadcast → broadcast.Receiver × EventBus World broadcast
  subscribe_all bus =
      let (rx, sender) = broadcast.subscribe bus.match_all_sender in
      (rx, record bus { match_all_sender = sender })

  unfoldable pub subscribe :
      EventType → EventBus World broadcast → broadcast.Receiver × EventBus World broadcast
  unfolding subscribe_all is_match_all
  subscribe event_type bus =
      if is_match_all event_type
      then subscribe_all bus
      else (let entry =
            unwrap_or (Map.lookup event_type bus.listeners) (broadcast.channel bus.capacity) in
          let (rx, sender) = broadcast.subscribe entry in
          (rx, record bus { listeners = Map.insert event_type sender bus.listeners }))

  abbrev pub sync_listeners_of : EventBus World broadcast → EventType → List (Listener Json World)
  sync_listeners_of bus event_type = unwrap_or (Map.lookup event_type bus.sync_listeners) []

  unfoldable pub fire :
      Event Json → EventBus World broadcast → World → World × EventBus World broadcast
  unfolding call_each is_excluded_from_match_all
  fire event bus w =
      let excluded = is_excluded_from_match_all event.event_type in
      let w1 = call_each (sync_listeners_of bus event.event_type) event w in
      let w2 = if not excluded then call_each (sync_listeners_of bus match_all) event w1 else w1 in
      (
        w2,
        record bus {
          listeners = Map.modify event.event_type (broadcast.send event) bus.listeners;
          match_all_sender =
              if not excluded
              then broadcast.send event bus.match_all_sender
              else bus.match_all_sender;
        },
      )

  -- `to_value` is that of `serde_json` for `T`, and `null` the default value.
  unfoldable pub fire_typed :
      {T : Type 0}
      → (T → Option Json)
      → Json
      → EventType
      → T
      → Context
      → Time
      → EventBus World broadcast
      → World
      → World × EventBus World broadcast
  unfolding fire Event.new
  fire_typed to_value null event_type payload context now bus w =
      fire (Event.new event_type (unwrap_or (to_value payload) null) context now) bus w

  unfoldable pub listen_sync :
      EventType
      → SyncCallback Json World
      → EventBus World broadcast
      → ListenerId × EventBus World broadcast
  listen_sync event_type callback bus =
      let id = bus.next_listener_id in
      (
        id,
        record bus {
          next_listener_id = u64 (id + 1);
          sync_listeners =
              Map.insert event_type (sync_listeners_of bus event_type ++ (id, callback) ∷ [])
                bus.sync_listeners;
        },
      )

  unfoldable pub remove_sync_listener :
      ListenerId → EventBus World broadcast → EventBus World broadcast
  unfolding remove_first
  remove_sync_listener listener_id bus = record bus {
    sync_listeners = remove_first listener_id bus.sync_listeners;
  }

  unfoldable pub listener_count : EventBus World broadcast → ℕ
  listener_count bus = length bus.listeners

  unfoldable pub sync_listener_count : EventBus World broadcast → ℕ
  unfolding count_listeners
  sync_listener_count bus = count_listeners bus.sync_listeners

  unfoldable pub sync_listeners_iter : EventBus World broadcast → List (EventType × ℕ)
  sync_listeners_iter bus =
      map (λ (entry : EventType × List (Listener Json World)). (entry.0, length entry.1))
        bus.sync_listeners
