-- ===== src/EventBus/Tests.antt =====
-- The bus at concrete events and callbacks; the data of an event is a text, the world the list of the
-- notes that callbacks made, and a channel the list of what was sent to it.
use homeassistant_rs.Base.{
  ℕ, ◌≡◌, ◌≢◌, Option, none, some, List, [], ◌∷◌, ◌++◌, arith, length, list_eq, nat_eq,
}
use homeassistant_rs.Base.Text.{Text, text}
use homeassistant_rs.Base.Map.{map_option}
use homeassistant_rs.Core.Context.{Context}
use homeassistant_rs.Core.Event.{Event, EventType, match_all}
use homeassistant_rs.Core.Event
use homeassistant_rs.EventBus.{Broadcast, EventBus, SyncCallback, with_capacity, state_reported}
use homeassistant_rs.EventBus.Delivery.{
  fire_all, send_all, call_all, of_type, not_excluded, sender_of, fire_all_lem,
}
use homeassistant_rs.EventBus.Listeners.{
  Call, listen_call, remove_call, subscribe_call, fire_call, run, IsFresh, run-new-IsFresh,
}

abbrev World : Type 0
World = List Text

abbrev lists : Broadcast (Event Text)
lists = record {
  Sender = List (Event Text);
  Receiver = ℕ;
  channel = λ capacity. [];
  subscribe = λ sent. (length sent, sent);
  send = λ event sent. sent ++ event ∷ [];
}

abbrev nobody : Context
nobody = record { id = text "c"; user_id = none; parent_id = none }

abbrev pressed : Event Text
pressed = Event.new (text "pressed") (text "door") nobody 1

abbrev reported : Event Text
reported = Event.new state_reported (text "lamp") nobody 2

abbrev note : Text → SyncCallback Text World
note name event w = (name ++ event.event_data) ∷ w

abbrev calls : List (Call Text World)
calls =
    subscribe_call (text "pressed")
    ∷ listen_call (text "pressed") (note (text "bell "))
    ∷ listen_call match_all (note (text "log "))
    ∷ listen_call (text "pressed") (note (text "light "))
    ∷ fire_call pressed
    ∷ remove_call 1
    ∷ []

abbrev bus : EventBus World lists
bus = (run calls [] (with_capacity 8)).1

bus-IsFresh : IsFresh bus
bus-IsFresh = run-new-IsFresh lists calls [] 8 (omega arith)

run-new-IsFresh_example : IsFresh bus
run-new-IsFresh_example = run-new-IsFresh lists calls [] 8 (omega arith)

fire_all_lem_example :
    let events = pressed ∷ reported ∷ pressed ∷ [] in
    let (v, b) = fire_all events bus [] in
    (v ≡ call_all bus events [])
    × ((t : EventType)
        → sender_of b t ≡ map_option (send_all lists (of_type t events)) (sender_of bus t))
    × (b.match_all_sender ≡ send_all lists (not_excluded events) bus.match_all_sender)
fire_all_lem_example = fire_all_lem (pressed ∷ reported ∷ pressed ∷ []) bus []

pressed-is_no_match_all : pressed.event_type ≢ match_all
unfolding Event.new
pressed-is_no_match_all h = ground arith

abbrev digit : Text → Option ℕ
digit [] = none
digit (c ∷ s) = some c

abbrev blank : Event Text
blank = Event.new (text "pressed") [] nobody 3
