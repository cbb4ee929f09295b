-- ===== src/StateStore/Journal.antt =====
-- The events that the state store fires, read as a journal of its states.
use homeassistant_rs.Base.{
  ◌≡◌, refl, sym, ap, ◌∙◌, Bool, not, ◌&&◌, Option, none, some, List, [], ◌∷◌, ◌++◌, Eq, ◌==◌,
  list_eq, nat_eq, if◌then◌else◌, Bool-cases, inl, inr,
}
use homeassistant_rs.Base.Text.{Text}
use homeassistant_rs.Base.Map
use homeassistant_rs.Base.Map.{Map, lookup-insert, lookup-remove}
use homeassistant_rs.Core.EntityId.{EntityId, to_string}
use homeassistant_rs.Core.Context.{Context}
use homeassistant_rs.Core.State.{State, Time}
use homeassistant_rs.StateStore.{
  StoreEvent, state_changed, state_reported, StateStore, new, report, change, set_over,
  set_internal, get, remove, remove_state,
}
use homeassistant_rs.StateStore.Lookup.{
  lookup-set_over, lookup-report, lookup-change, lookup-remove_state,
}

module _ {Json : Type 0} where
  -- What an event says of the states.
  unfoldable pub apply : Map Text (State Json) → StoreEvent Json → Map Text (State Json)
  apply m (state_changed id old none) = Map.remove (to_string id) m
  apply m (state_changed id old (some v)) = Map.insert (to_string id) v m
  apply m (state_reported id v old_reported now) = Map.insert (to_string id) v m

  unfoldable pub replay :
      Map Text (State Json) → List (StoreEvent Json × Context) → Map Text (State Json)
  replay m [] = m
  replay m ((event, context) ∷ rest) = replay (apply m event) rest

  -- The old values that an event carries are those that stand in `look`.
  abbrev pub Expects : (Text → Option (State Json)) → StoreEvent Json → Type 0
  Expects look (state_changed id old changed) = look (to_string id) ≡ old
  Expects look (state_reported id v old_reported now) =
      (w : State Json) × (look (to_string id) ≡ some w)
      × (w.last_reported ≡ old_reported)
      × (v ≡ record w { last_reported = some now })

  -- Each event of a journal tells the old values as the events before it left them.
  abbrev pub IsChained : Map Text (State Json) → List (StoreEvent Json × Context) → Type 0
  IsChained m [] = Unit {0}
  IsChained m ((event, context) ∷ rest) =
      Expects (λ k. Map.lookup k m) event × IsChained (apply m event) rest

  pub record IsJournaled (s : StateStore Json) : Type 0 where
    pub chained : IsChained [] s.event_bus
    pub replayed : (k : Text) → Map.lookup k (replay [] s.event_bus) ≡ get s k

  abbrev effect : StoreEvent Json → Text → Option (State Json) → Option (State Json)
  effect (state_changed id old changed) k before = if to_string id == k then changed else before
  effect (state_reported id v old_reported now) k before =
      if to_string id == k then some v else before

  lookup-apply :
      (m : Map Text (State Json)) (event : StoreEvent Json) (k : Text)
      → Map.lookup k (apply m event) ≡ effect event k (Map.lookup k m)
  unfolding apply
  lookup-apply m (state_changed id old none) k = lookup-remove (to_string id) k m
  lookup-apply m (state_changed id old (some v)) k = lookup-insert (to_string id) k v m
  lookup-apply m (state_reported id v old_reported now) k = lookup-insert (to_string id) k v m

  replay-append :
      (m : Map Text (State Json)) (es : List (StoreEvent Json × Context)) (event : StoreEvent Json)
      (context : Context)
      → replay m (es ++ (event, context) ∷ []) ≡ apply (replay m es) event
  unfolding replay
  replay-append m [] event context = refl
  replay-append m ((x, c) ∷ es) event context = replay-append (apply m x) es event context

  IsChained-append :
      (m : Map Text (State Json)) (es : List (StoreEvent Json × Context)) (event : StoreEvent Json)
      (context : Context)
      → IsChained m es
      → Expects (λ k. Map.lookup k (replay m es)) event
      → IsChained m (es ++ (event, context) ∷ [])
  unfolding replay
  IsChained-append m [] event context c x = (x, tt)
  IsChained-append m ((e, d) ∷ es) event context c x =
      (c.0, IsChained-append (apply m e) es event context c.1 x)

  Expects-cong :
      (f g : Text → Option (State Json)) (event : StoreEvent Json)
      → ((k : Text) → f k ≡ g k)
      → Expects g event
      → Expects f event
  Expects-cong f g (state_changed id old changed) h x = h (to_string id) ∙ x
  Expects-cong f g (state_reported id v old_reported now) h x =
      (x.0, h (to_string id) ∙ x.1, x.2, x.3)

  -- One more event that tells the old values and the new ones.
  journal_step :
      (s t : StateStore Json) (event : StoreEvent Json) (context : Context)
      → IsJournaled s
      → t.event_bus ≡ s.event_bus ++ (event, context) ∷ []
      → Expects (get s) event
      → ((k : Text) → get t k ≡ effect event k (get s k))
      → IsJournaled t
  unfolding get
  journal_step s t event context j fired x h = record {
    chained = rw fired (
        IsChained-append [] s.event_bus event context j.chained
          (Expects-cong (λ k. Map.lookup k (replay [] s.event_bus)) (get s) event j.replayed x));
    replayed = λ k. rw fired (
        rw (replay-append [] s.event_bus event context) (
          lookup-apply (replay [] s.event_bus) event k
          ∙ ap (effect event k) (j.replayed k)
          ∙ sym (h k)));
  }

  pub new-IsJournaled : IsJournaled new
  unfolding new replay get
  new-IsJournaled = record { chained = tt; replayed = λ k. refl }

  remove_state-IsJournaled :
      (old : Option (State Json)) (s : StateStore Json) (id : EntityId) (context : Context)
      → IsJournaled s
      → get s (to_string id) ≡ old
      → IsJournaled (remove_state old s id context).1
  unfolding remove_state get
  remove_state-IsJournaled none s id context j o = j
  remove_state-IsJournaled (some w) s id context j o =
      journal_step s (remove_state (some w) s id context).1 (state_changed id (some w) none) context
        j refl o (λ k. lookup-remove_state s id context (some w) k o)

  -- `remove` fires an event that tells the state it removed, and none where there is no state.
  pub remove-IsJournaled :
      (s : StateStore Json) (id : EntityId) (context : Context)
      → IsJournaled s
      → IsJournaled (remove s id context).1
  unfolding remove get
  remove-IsJournaled s id context j =
      remove_state-IsJournaled (get s (to_string id)) s id context j refl

module _ {Json : Type 0} ⦃e : Eq Json⦄ where
  set_over-IsJournaled :
      (old : Option (State Json)) (s : StateStore Json) (id : EntityId) (state : Text)
      (attributes : Map Text Json) (context : Context) (force : Bool) (now : Time)
      → IsJournaled s
      → get s (to_string id) ≡ old
      → IsJournaled (set_over old s id state attributes context force now).1
  unfolding set_over report change get
  set_over-IsJournaled none s id state attributes context force now j o =
      let (v, t) = set_over none s id state attributes context force now in
      journal_step s t (state_changed id none (some v)) context j refl o
        (lookup-set_over none s id state attributes context force now)
  set_over-IsJournaled (some w) s id state attributes context force now j o =
      let same = w.state == state && not force in
      elim (Bool-cases (same && Map.map_beq w.attributes attributes)) [
        | inl h ↦
            let (v, t) = report s id w context now in
            rw h (
              journal_step s t (state_reported id v w.last_reported now) context j refl
                (w, o, refl, refl) (lookup-report s id w context now))
        | inr h ↦
            let (v, t) = change s id (some w) same state attributes context force now in
            rw h (
              journal_step s t (state_changed id (some w) (some v)) context j refl o
                (lookup-change s id (some w) same state attributes context force now))
      ]

  -- `set`, forced or not, fires an event that tells the old state and the new one.
  pub set_internal-IsJournaled :
      (s : StateStore Json) (id : EntityId) (state : Text) (attributes : Map Text Json)
      (context : Context) (force : Bool) (now : Time)
      → IsJournaled s
      → IsJournaled (set_internal s id state attributes context force now).1
  unfolding set_internal get
  set_internal-IsJournaled s id state attributes context force now j =
      set_over-IsJournaled (get s (to_string id)) s id state attributes context force now j refl
