-- ===== src/EventBus/Delivery.antt =====
-- What `fire` of crates/ha-event-bus/src/lib.rs calls and sends, one event and many.
use homeassistant_rs.Base.{
  ◌≡◌, ◌≢◌, refl, ap, ◌∙◌, false, not, Option, none, some, List, [], ◌∷◌, ◌++◌, arith, ==_iff,
  ==_refl, ◌==◌, list_eq, nat_eq, if◌then◌else◌, filter, Bool-cases, inl, inr,
}
use homeassistant_rs.Base.Map
use homeassistant_rs.Base.Map.{map_option, lookup-insert, lookup-modify}
use homeassistant_rs.Core.Event.{Event, EventType, match_all}
use homeassistant_rs.EventBus.{
  Broadcast, EventBus, Listener, SyncCallback, call_each, is_excluded_from_match_all,
  sync_listeners_of, fire, listen_sync,
}

module _ {Json : Type 0} where
  -- A channel after messages were sent to it, in order.
  abbrev pub send_all :
      (broadcast : Broadcast (Event Json)) → List (Event Json) → broadcast.Sender → broadcast.Sender
  send_all broadcast [] sender = sender
  send_all broadcast (event ∷ events) sender =
      send_all broadcast events (broadcast.send event sender)

  abbrev pub of_type : EventType → List (Event Json) → List (Event Json)
  of_type event_type events = filter (λ (e : Event Json). e.event_type == event_type) events

  abbrev pub not_excluded : List (Event Json) → List (Event Json)
  not_excluded events =
      filter (λ (e : Event Json). not (is_excluded_from_match_all e.event_type)) events

ne_beq : (t u : EventType) → t ≢ u → (t == u) ≡ false
ne_beq t u ne = ground (arith, ==_iff t u)

module _ {V : Type 0} where
  same_option : (o : Option V) → o ≡ map_option (λ v. v) o
  same_option none = refl
  same_option (some v) = refl

  map_option-map_option :
      (f g : V → V) (o : Option V) → map_option g (map_option f o) ≡ map_option (λ v. g (f v)) o
  map_option-map_option f g none = refl
  map_option-map_option f g (some v) = refl

module _ {Json World : Type 0} where
  call_each-append :
      (xs ys : List (Listener Json World)) (event : Event Json) (w : World)
      → call_each (xs ++ ys) event w ≡ call_each ys event (call_each xs event w)
  unfolding call_each
  call_each-append [] ys event w = refl
  call_each-append ((id, callback) ∷ xs) ys event w =
      call_each-append xs ys event (callback event w)

module _ {Json World : Type 0} {broadcast : Broadcast (Event Json)} where
  -- The callbacks for an event type: its own, then those for all events unless it is excluded.
  abbrev pub recipients : EventBus World broadcast → EventType → List (Listener Json World)
  recipients bus event_type =
      sync_listeners_of bus event_type
      ++ (if is_excluded_from_match_all event_type then [] else sync_listeners_of bus match_all)

  fire-recipients :
      (event : Event Json) (bus : EventBus World broadcast) (w : World)
      → (fire event bus w).0 ≡ call_each (recipients bus event.event_type) event w
  unfolding fire call_each
  fire-recipients event bus w = elim (Bool-cases (is_excluded_from_match_all event.event_type)) [
    | inl t ↦
        ground (arith, t, call_each-append (sync_listeners_of bus event.event_type) [] event w)
    | inr t ↦ ground (
      arith,
      t,
      call_each-append (sync_listeners_of bus event.event_type) (sync_listeners_of bus match_all)
          event w,
    )
  ]

  -- Firing events one after the other.
  unfoldable pub fire_all :
      List (Event Json) → EventBus World broadcast → World → World × EventBus World broadcast
  unfolding fire
  fire_all [] bus w = (w, bus)
  fire_all (event ∷ events) bus w = let (v, b) = fire event bus w in fire_all events b v

  -- The callbacks of the events, in the order of the events.
  abbrev pub call_all : EventBus World broadcast → List (Event Json) → World → World
  call_all bus [] w = w
  call_all bus (event ∷ events) w =
      call_all bus events (call_each (recipients bus event.event_type) event w)

  abbrev pub sender_of : EventBus World broadcast → EventType → Option broadcast.Sender
  sender_of bus event_type = Map.lookup event_type bus.listeners

  fire_all-world :
      (events : List (Event Json)) (bus : EventBus World broadcast) (w : World)
      → (fire_all events bus w).0 ≡ call_all bus events w
  unfolding fire_all fire
  fire_all-world [] bus w = refl
  fire_all-world (event ∷ events) bus w =
      fire_all-world events (fire event bus w).1 (fire event bus w).0
      ∙ ap (call_all bus events) (fire-recipients event bus w)

  fire_all-sender_of :
      (events : List (Event Json)) (bus : EventBus World broadcast) (w : World) (t : EventType)
      → sender_of (fire_all events bus w).1 t
        ≡ map_option (send_all broadcast (of_type t events)) (sender_of bus t)
  unfolding fire_all fire
  fire_all-sender_of [] bus w t = same_option (sender_of bus t)
  fire_all-sender_of (event ∷ events) bus w t =
      fire_all-sender_of events (fire event bus w).1 (fire event bus w).0 t
      ∙ ap (map_option (send_all broadcast (of_type t events)))
          (lookup-modify event.event_type t (broadcast.send event) bus.listeners)
      ∙ (elim (Bool-cases (event.event_type == t)) [
        | inl h ↦ rw h (
            map_option-map_option (broadcast.send event) (send_all broadcast (of_type t events))
              (sender_of bus t))
        | inr h ↦ rw h refl
      ])

  fire_all-match_all :
      (events : List (Event Json)) (bus : EventBus World broadcast) (w : World)
      → (fire_all events bus w).1.match_all_sender
        ≡ send_all broadcast (not_excluded events) bus.match_all_sender
  unfolding fire_all fire
  fire_all-match_all [] bus w = refl
  fire_all-match_all (event ∷ events) bus w =
      fire_all-match_all events (fire event bus w).1 (fire event bus w).0 ∙ ground arith

  -- After any events, each was given to the callbacks of its type and then, unless it is excluded, to
  -- those for all events, in the order of the events; the channel of a type was sent the events of
  -- that type, and the channel for all events those that are not excluded, in that order.
  pub fire_all_lem :
      (events : List (Event Json)) (bus : EventBus World broadcast) (w : World)
      → let (v, b) = fire_all events bus w in
        (v ≡ call_all bus events w)
        × ((t : EventType)
            → sender_of b t ≡ map_option (send_all broadcast (of_type t events)) (sender_of bus t))
        × (b.match_all_sender ≡ send_all broadcast (not_excluded events) bus.match_all_sender)
  fire_all_lem events bus w = (
    fire_all-world events bus w,
    fire_all-sender_of events bus w,
    fire_all-match_all events bus w,
  )

  sync_listeners_of-listen_sync :
      (t u : EventType) (callback : SyncCallback Json World) (bus : EventBus World broadcast)
      → let (id, b) = listen_sync t callback bus in
        sync_listeners_of b u ≡ (
          if t == u
          then sync_listeners_of bus u ++ (id, callback) ∷ []
          else sync_listeners_of bus u)
  unfolding listen_sync
  sync_listeners_of-listen_sync t u callback bus = ground (
    arith,
    lookup-insert t u (sync_listeners_of bus t ++ (bus.next_listener_id, callback) ∷ [])
        bus.sync_listeners,
    ==_iff t u,
  )

  -- A callback for a type runs on each event of that type after the earlier callbacks of the type,
  -- and before those for all events.
  pub fire-listen_sync :
      (callback : SyncCallback Json World) (event : Event Json) (bus : EventBus World broadcast)
      (w : World)
      → event.event_type ≢ match_all
      → let (id, b) = listen_sync event.event_type callback bus in
        let later =
          if is_excluded_from_match_all event.event_type
          then []
          else sync_listeners_of bus match_all in
        (fire event b w).0
        ≡ call_each later event
            (callback event (call_each (sync_listeners_of bus event.event_type) event w))
  unfolding call_each
  fire-listen_sync callback event bus w ne =
      let t = event.event_type in
      let (id, b) = listen_sync t callback bus in
      let later = if is_excluded_from_match_all t then [] else sync_listeners_of bus match_all in
      let own : sync_listeners_of b t ≡ sync_listeners_of bus t ++ (id, callback) ∷ [] =
        sync_listeners_of-listen_sync t t callback bus ∙ rw (==_refl t) refl in
      let others : sync_listeners_of b match_all ≡ sync_listeners_of bus match_all =
        sync_listeners_of-listen_sync t match_all callback bus ∙ rw (ne_beq t match_all ne) refl in
      fire-recipients event b w
      ∙ rw own (
          rw others
            (call_each-append (sync_listeners_of bus t ++ (id, callback) ∷ []) later event w))
      ∙ ap (call_each later event)
          (call_each-append (sync_listeners_of bus t) ((id, callback) ∷ []) event w)
