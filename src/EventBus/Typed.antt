-- ===== src/EventBus/Typed.antt =====
-- `TypedEventReceiver` of crates/ha-event-bus/src/lib.rs. What `recv` of its channel gives is a list:
-- an event, or the error of a channel that lags or is closed.
use homeassistant_rs.Base.{ℕ, ◌≡◌, refl, Option, none, some, List, [], ◌∷◌, ◌++◌, Result, ok, err}
use homeassistant_rs.Core.Event.{Event}

pub data RecvError : Type 0 where
  closed : RecvError
  lagged : ℕ → RecvError

module _ {Json : Type 0} where
  abbrev pub messages_of : List (Event Json) → List (Result RecvError (Event Json))
  messages_of [] = []
  messages_of (event ∷ events) = ok event ∷ messages_of events

module _ {Json T : Type 0} (from_value : Json → Option T) where
  abbrev pub typed : Event Json → T → Event T
  typed event payload = record {
    event_type = event.event_type;
    event_data = payload;
    origin = event.origin;
    time_fired = event.time_fired;
    context = event.context;
  }

  -- The result, with what is left in the channel; none while the channel has nothing that ends the
  -- loop.
  unfoldable pub recv :
      List (Result RecvError (Event Json))
      → Option (Result RecvError (Event T) × List (Result RecvError (Event Json)))
  recv [] = none
  recv (err e ∷ messages) = some (err e, messages)
  recv (ok event ∷ messages) = elim (from_value event.event_data) [
    | some payload ↦ some (ok (typed event payload), messages)
    | none ↦ recv messages
  ]

  abbrev pub AllUnread : List (Event Json) → Type 0
  AllUnread [] = Unit
  AllUnread (event ∷ events) = (from_value event.event_data ≡ none) × AllUnread events

  -- `recv` passes over the events whose data is not a `T`: it gives the first whose data is one, with
  -- all else as it was sent, or the first error; until one of them is sent it waits.
  pub recv-skips :
      (skipped : List (Event Json)) (event : Event Json) (payload : T) (e : RecvError)
      (rest : List (Result RecvError (Event Json)))
      → AllUnread skipped
      → from_value event.event_data ≡ some payload
      → (recv (messages_of skipped) ≡ none)
        × (recv (messages_of skipped ++ ok event ∷ rest) ≡ some (ok (typed event payload), rest))
        × (recv (messages_of skipped ++ err e ∷ rest) ≡ some (err e, rest))
  unfolding recv
  recv-skips [] event payload e rest h p = (refl, rw p refl, refl)
  recv-skips (s ∷ skipped) event payload e rest (n, h) p =
      rw n (recv-skips skipped event payload e rest h p)
