-- ===== src/StateStore/Runs.antt =====
-- Every sequence of calls of the state store.
use homeassistant_rs.Base.{◌≡◌, Bool, List, [], ◌∷◌, Eq, list_eq, nat_eq}
use homeassistant_rs.Base.Text.{Text}
use homeassistant_rs.Base.Map
use homeassistant_rs.Base.Map.{Map}
use homeassistant_rs.Core.EntityId.{EntityId}
use homeassistant_rs.Core.EntityId.Parsing.{IsValidId}
use homeassistant_rs.Core.Context.{Context}
use homeassistant_rs.Core.State.{Time}
use homeassistant_rs.StateStore.{StateStore, new, set_internal, get, remove}
use homeassistant_rs.StateStore.Consistency.{
  IsConsistent, new-IsConsistent, set_internal-IsConsistent, remove-IsConsistent,
}
use homeassistant_rs.StateStore.Journal.{
  replay, IsChained, IsJournaled, new-IsJournaled, set_internal-IsJournaled, remove-IsJournaled,
}

pub data Call (Json : Type 0) : Type 0 where
  set_call : EntityId → Text → Map Text Json → Context → Bool → Time → Call Json
  remove_call : EntityId → Context → Call Json

module _ {Json : Type 0} where
  -- An `EntityId` outside of its module is a valid one.
  abbrev pub AllValid : List (Call Json) → Type 0
  AllValid [] = Unit
  AllValid (set_call id state attributes context force now ∷ calls) = IsValidId id × AllValid calls
  AllValid (remove_call id context ∷ calls) = IsValidId id × AllValid calls

module _ {Json : Type 0} ⦃e : Eq Json⦄ where
  unfoldable pub run : StateStore Json → List (Call Json) → StateStore Json
  unfolding set_internal remove
  run s [] = s
  run s (set_call id state attributes context force now ∷ calls) =
      run (set_internal s id state attributes context force now).1 calls
  run s (remove_call id context ∷ calls) = run (remove s id context).1 calls

  run_from-IsConsistent :
      (s : StateStore Json) (calls : List (Call Json))
      → AllValid calls
      → IsConsistent s
      → IsConsistent (run s calls)
  unfolding run
  run_from-IsConsistent s [] a c = c
  run_from-IsConsistent s (set_call id state attributes context force now ∷ calls) a c =
      run_from-IsConsistent (set_internal s id state attributes context force now).1 calls a.1
        (set_internal-IsConsistent s id state attributes context force now a.0 c)
  run_from-IsConsistent s (remove_call id context ∷ calls) a c =
      run_from-IsConsistent (remove s id context).1 calls a.1
        (remove-IsConsistent s id context a.0 c)

  -- After any calls with valid ids on a new store, what is stored is well formed, and the index of a
  -- domain holds each id of the domain once and nothing else.
  pub run-IsConsistent : (calls : List (Call Json)) → AllValid calls → IsConsistent (run new calls)
  run-IsConsistent calls a = run_from-IsConsistent new calls a new-IsConsistent

  run_from-IsJournaled :
      (s : StateStore Json) (calls : List (Call Json)) → IsJournaled s → IsJournaled (run s calls)
  unfolding run
  run_from-IsJournaled s [] j = j
  run_from-IsJournaled s (set_call id state attributes context force now ∷ calls) j =
      run_from-IsJournaled (set_internal s id state attributes context force now).1 calls
        (set_internal-IsJournaled s id state attributes context force now j)
  run_from-IsJournaled s (remove_call id context ∷ calls) j =
      run_from-IsJournaled (remove s id context).1 calls (remove-IsJournaled s id context j)

  -- After any calls on a new store, the fired events, replayed over nothing, give each entity the
  -- state that `get` gives, and each event tells the old state as the events before it left it.
  pub run-IsJournaled :
      (calls : List (Call Json))
      → let s = run new calls in
        ((k : Text) → Map.lookup k (replay [] s.event_bus) ≡ get s k) × IsChained [] s.event_bus
  run-IsJournaled calls =
      let j = run_from-IsJournaled new calls new-IsJournaled in (j.replayed, j.chained)
