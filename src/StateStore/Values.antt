-- ===== src/StateStore/Values.antt =====
-- The value and the time stamps of the state that `set` returns.
use homeassistant_rs.Base.{
  ◌≤◌, ◌<◌, ◌≡◌, refl, Bool, true, false, not, ◌&&◌, ltb, Option, none, some, arith, Eq, ==_iff,
  ◌==◌, list_eq, nat_eq, if◌then◌else◌, Bool-cases, inl, inr,
}
use homeassistant_rs.Base.Text.{Text, byte_len}
use homeassistant_rs.Base.Map.{Map}
use homeassistant_rs.Core.EntityId.{EntityId, to_string}
use homeassistant_rs.Core.Context.{Context}
use homeassistant_rs.Core.State.{State, Time, max_state_length, state_unknown}
use homeassistant_rs.StateStore.{StateStore, set_over, set_internal, get, limit_state}
use homeassistant_rs.StateStore.Lookup.{get-set_internal}
use homeassistant_rs.StateStore.Consistency.{IsConsistent, IsStored}

module _ {Json : Type 0} ⦃e : Eq Json⦄ where
  set_over-fits :
      (old : Option (State Json)) (s : StateStore Json) (id : EntityId) (state : Text)
      (attributes : Map Text Json) (context : Context) (force : Bool) (now : Time)
      → byte_len state ≤ max_state_length
      → (set_over old s id state attributes context force now).0.state ≡ state
  unfolding set_over
  set_over-fits none s id state attributes context force now h = ground arith
  set_over-fits (some w) s id state attributes context force now h =
      ground (arith, ==_iff w.state state)

  set_over-too_long :
      (old : Option (State Json)) (s : StateStore Json) (id : EntityId) (state : Text)
      (attributes : Map Text Json) (context : Context) (force : Bool) (now : Time)
      → ((v : State Json) → old ≡ some v → IsStored (to_string id) v)
      → max_state_length < byte_len state
      → (set_over old s id state attributes context force now).0.state ≡ state_unknown
  unfolding set_over
  set_over-too_long none s id state attributes context force now g h = ground arith
  set_over-too_long (some w) s id state attributes context force now g h =
      ground (arith, ==_iff w.state state, (g w refl).bounded)

  -- In a consistent store `set` stores the value that it is given if this has 255 bytes at most, and
  -- "unknown" otherwise.
  pub state-set_internal :
      (s : StateStore Json) (id : EntityId) (state : Text) (attributes : Map Text Json)
      (context : Context) (force : Bool) (now : Time)
      → IsConsistent s
      → (set_internal s id state attributes context force now).0.state
        ≡ (if ltb max_state_length (byte_len state) then state_unknown else state)
  unfolding set_internal get
  state-set_internal s id state attributes context force now c =
      elim (Bool-cases (ltb max_state_length (byte_len state))) [
        | inl h ↦ rw h (
            set_over-too_long (get s (to_string id)) s id state attributes context force now
              (c.stored (to_string id)) (ground arith))
        | inr h ↦ rw h (
            set_over-fits (get s (to_string id)) s id state attributes context force now
              (ground arith))
      ]

  last_changed-set_over :
      (w : State Json) (s : StateStore Json) (id : EntityId) (state : Text)
      (attributes : Map Text Json) (context : Context) (force : Bool) (now : Time)
      → let v = (set_over (some w) s id state attributes context force now).0 in
        v.last_changed ≡ (if w.state == v.state && not force then w.last_changed else now)
  unfolding set_over
  last_changed-set_over w s id state attributes context true now =
      ground (arith, ==_iff w.state state)
  last_changed-set_over w s id state attributes context false now =
      let limited = limit_state (w.state == state) state in
      ground (arith, ==_iff w.state state, ==_iff w.state limited, ==_iff w.state w.state)

  -- `set` of an entity that has a state keeps `last_changed` where the value stays, and moves it to
  -- the present where the value changes or the update is forced.
  pub last_changed-set_internal :
      (s : StateStore Json) (id : EntityId) (state : Text) (attributes : Map Text Json)
      (context : Context) (force : Bool) (now : Time) (old : State Json)
      → get s (to_string id) ≡ some old
      → let v = (set_internal s id state attributes context force now).0 in
        v.last_changed ≡ (if old.state == v.state && not force then old.last_changed else now)
  unfolding set_internal get
  last_changed-set_internal s id state attributes context force now old h =
      rw h (last_changed-set_over old s id state attributes context force now)

  -- The stamps of a stored state are in order, and none lies ahead of `t`.
  pub record IsTimed (t : Time) (s : StateStore Json) : Type 0 where
    pub stamped :
        (k : Text) (v : State Json)
        → get s k ≡ some v
        → (v.last_changed ≤ v.last_updated) × (v.last_updated ≤ t)

  set_over-times :
      (old : Option (State Json)) (s : StateStore Json) (id : EntityId) (state : Text)
      (attributes : Map Text Json) (context : Context) (force : Bool) (now : Time)
      → ((w : State Json)
          → old ≡ some w
          → (w.last_changed ≤ w.last_updated) × (w.last_updated ≤ now))
      → let v = (set_over old s id state attributes context force now).0 in
        (v.last_changed ≤ v.last_updated) × (v.last_updated ≤ now)
  unfolding set_over
  set_over-times none s id state attributes context force now g = ground arith
  set_over-times (some w) s id state attributes context force now g = ground (arith, g w refl)

  -- When the clock does not run back, `set` keeps the stamps in order and none ahead of the clock.
  pub set_internal-IsTimed :
      (s : StateStore Json) (id : EntityId) (state : Text) (attributes : Map Text Json)
      (context : Context) (force : Bool) (t now : Time)
      → t ≤ now
      → IsTimed t s
      → IsTimed now (set_internal s id state attributes context force now).1
  unfolding set_internal get
  set_internal-IsTimed s id state attributes context force t now later h =
      let key = to_string id in
      let fresh =
        set_over-times (get s key) s id state attributes context force now
          (λ w p. ground (arith, h.stamped key w)) in
      record {
        stamped = λ k v p. ground (
          arith,
          fresh,
          h.stamped k v,
          get-set_internal s id state attributes context force now k,
        );
      }
