-- ===== src/StateStore/Consistency.antt =====
-- The invariant of the state store: what is stored is well formed, and the index of a domain holds
-- each id of the domain once and nothing else.
use homeassistant_rs.Base.{
  ℕ, ◌≤◌, ◌≡◌, refl, sym, ap, ◌∙◌, Bool, true, false, not, ◌&&◌, Option, none, some, [], ◌∷◌, ◌++◌,
  arith, Eq, ==_iff, ◌==◌, list_eq, nat_eq, if◌then◌else◌, Bool-cases, inl, inr, is_some,
}
use homeassistant_rs.Base.Text.{Text, byte_len}
use homeassistant_rs.Base.Map
use homeassistant_rs.Base.Map.{Map, map_laws, lookup-insert, lookup-remove, lookup-modify}
use homeassistant_rs.Base.IdSet
use homeassistant_rs.Base.IdSet.{count, count-append, count-remove}
use homeassistant_rs.Core.EntityId.{EntityId, to_string}
use homeassistant_rs.Core.EntityId.Parsing.{IsValidId, to_string_injective}
use homeassistant_rs.Core.Context.{Context}
use homeassistant_rs.Core.State.{State, Time, max_state_length}
use homeassistant_rs.StateStore.{
  StateStore, new, limit_state, next_state, set_over, set_internal, get, remove, remove_state,
  entity_ids,
}
use homeassistant_rs.StateStore.Lookup.{lookup-set_over, get-set_internal, get-remove}

limit_state-bounded :
    (same : Bool) (state : Text)
    → (same ≡ true → byte_len state ≤ max_state_length)
    → byte_len (limit_state same state) ≤ max_state_length
unfolding limit_state byte_len
limit_state-bounded true state h = ground (arith, h refl)
limit_state-bounded false state h = ground arith

module _ {Json : Type 0} where
  abbrev pub in_domain : Text → Option (State Json) → ℕ
  in_domain d none = 0
  in_domain d (some v) = if v.entity_id.domain == d then 1 else 0

  -- A state that may stand under the key `k`.
  pub record IsStored (k : Text) (v : State Json) : Type 0 where
    pub valid : IsValidId v.entity_id
    pub keyed : k ≡ to_string v.entity_id
    pub bounded : byte_len v.state ≤ max_state_length

  pub record IsConsistent (s : StateStore Json) : Type 0 where
    pub stored : (k : Text) (v : State Json) → get s k ≡ some v → IsStored k v
    pub indexed : (d k : Text) → count k (entity_ids s d) ≡ in_domain d (get s k)

  IsStored-if :
      (key k : Text) (n : State Json) (o : Option (State Json)) (v : State Json)
      → (if key == k then some n else o) ≡ some v
      → IsStored key n
      → (o ≡ some v → IsStored k v)
      → IsStored k v
  IsStored-if key k n o v p stored old = elim (Bool-cases (key == k)) [
    | inl t ↦
        let q : some n ≡ some v = rw t at p in
        let same : n ≡ v = cc in rw (← same) (rw (← ((==_iff key k).0 t)) stored)
    | inr t ↦ old (rw t at p)
  ]

  IsStored-id :
      (id : EntityId) (v : State Json) → IsValidId id → IsStored (to_string id) v → v.entity_id ≡ id
  IsStored-id id v h stored = sym (to_string_injective id v.entity_id h stored.valid stored.keyed)

  pub new-IsConsistent : IsConsistent new
  unfolding new get entity_ids Map.lookup count
  new-IsConsistent = record { stored = λ k v h. ground arith; indexed = λ d k. refl }

  next_state-IsStored :
      (id : EntityId) (old : Option (State Json)) (state : Text) (attributes : Map Text Json)
      (context : Context) (force : Bool) (now : Time)
      → IsValidId id
      → ((v : State Json) → old ≡ some v → IsStored (to_string id) v)
      → byte_len state ≤ max_state_length
      → IsStored (to_string id) (next_state id old state attributes context force now)
  unfolding next_state
  next_state-IsStored id none state attributes context force now v g h = record {
    valid = v;
    keyed = refl;
    bounded = h;
  }
  next_state-IsStored id (some w) state attributes context true now v g h = record {
    valid = v;
    keyed = refl;
    bounded = h;
  }
  next_state-IsStored id (some w) state attributes context false now v g h =
      let stored : IsStored (to_string id) w = g w refl in
      record { valid = stored.valid; keyed = stored.keyed; bounded = h }

module _ {Json : Type 0} ⦃e : Eq Json⦄ where
  set_over-IsStored :
      (old : Option (State Json)) (s : StateStore Json) (id : EntityId) (state : Text)
      (attributes : Map Text Json) (context : Context) (force : Bool) (now : Time)
      → IsValidId id
      → ((v : State Json) → old ≡ some v → IsStored (to_string id) v)
      → IsStored (to_string id) (set_over old s id state attributes context force now).0
  unfolding set_over
  set_over-IsStored none s id state attributes context force now v g =
      next_state-IsStored id none (limit_state false state) attributes context force now v g
        (limit_state-bounded false state (λ h. ground arith))
  set_over-IsStored (some w) s id state attributes context force now v g =
      let same = w.state == state && not force in
      elim (Bool-cases (same && Map.map_beq w.attributes attributes)) [
        | inl h ↦
            let stored : IsStored (to_string id) w = g w refl in
            rw h (record { valid = stored.valid; keyed = stored.keyed; bounded = stored.bounded })
        | inr h ↦ rw h (
            next_state-IsStored id (some w) (limit_state same state) attributes context force now v
              g
              (limit_state-bounded same state
                (λ p. ground (arith, ==_iff w.state state, (g w refl).bounded))))
      ]

  entity_ids-set_over :
      (old : Option (State Json)) (s : StateStore Json) (id : EntityId) (state : Text)
      (attributes : Map Text Json) (context : Context) (force : Bool) (now : Time) (d : Text)
      → entity_ids (set_over old s id state attributes context force now).1 d ≡ (
          if not (is_some old) && id.domain == d
          then entity_ids s d ++ to_string id ∷ []
          else entity_ids s d)
  unfolding set_over entity_ids
  entity_ids-set_over none s id state attributes context force now d = ground (
    arith,
    ==_iff id.domain d,
    lookup-insert id.domain d (entity_ids s id.domain ++ to_string id ∷ []) s.domain_index,
  )
  entity_ids-set_over (some w) s id state attributes context force now d = ground arith

  set_over-indexed :
      (old : Option (State Json)) (s : StateStore Json) (id : EntityId) (state : Text)
      (attributes : Map Text Json) (context : Context) (force : Bool) (now : Time) (d k : Text)
      → IsValidId id
      → IsConsistent s
      → get s (to_string id) ≡ old
      → let s' = (set_over old s id state attributes context force now).1 in
        count k (entity_ids s' d) ≡ in_domain d (get s' k)
  unfolding get count
  set_over-indexed none s id state attributes context force now d k h c o =
      let v = (set_over none s id state attributes context force now).0 in
      let same : v.entity_id ≡ id =
        IsStored-id id v h (
          set_over-IsStored none s id state attributes context force now h (λ w p. ground arith)) in
      ground (
        arith,
        same,
        lookup-set_over none s id state attributes context force now k,
        entity_ids-set_over none s id state attributes context force now d,
        count-append k (entity_ids s d) (to_string id ∷ []),
        ==_iff (to_string id) k,
        c.indexed d k,
        ap (λ (i : EntityId). i.domain == d) same,
      )
  set_over-indexed (some w) s id state attributes context force now d k h c o =
      let v = (set_over (some w) s id state attributes context force now).0 in
      let same : v.entity_id ≡ id = IsStored-id id v h (
        set_over-IsStored (some w) s id state attributes context force now h
          (λ x p. c.stored (to_string id) x (o ∙ p))) in
      let before : w.entity_id ≡ id = IsStored-id id w h (c.stored (to_string id) w o) in
      ground (
        arith,
        lookup-set_over (some w) s id state attributes context force now k,
        entity_ids-set_over (some w) s id state attributes context force now d,
        ==_iff (to_string id) k,
        c.indexed d k,
        ap (λ (i : EntityId). i.domain == d) same,
        ap (λ (i : EntityId). i.domain == d) before,
      )

  -- `set`, forced or not, of a valid entity id keeps the store consistent.
  pub set_internal-IsConsistent :
      (s : StateStore Json) (id : EntityId) (state : Text) (attributes : Map Text Json)
      (context : Context) (force : Bool) (now : Time)
      → IsValidId id
      → IsConsistent s
      → IsConsistent (set_internal s id state attributes context force now).1
  unfolding set_internal
  set_internal-IsConsistent s id state attributes context force now h c =
      let old = Map.lookup (to_string id) s.states in
      let new_state = (set_over old s id state attributes context force now).0 in
      let stored : IsStored (to_string id) new_state =
        set_over-IsStored old s id state attributes context force now h
          (λ v p. c.stored (to_string id) v (unfold get in p)) in
      record {
        stored = λ k v p.
            IsStored-if (to_string id) k new_state (get s k) v
              (sym (get-set_internal s id state attributes context force now k) ∙ p) stored
              (c.stored k v);
        indexed = λ d k.
            set_over-indexed old s id state attributes context force now d k h c
              (unfold get in refl);
      }

module _ {Json : Type 0} where
  entity_ids-remove_state :
      (w : State Json) (s : StateStore Json) (id : EntityId) (context : Context) (d : Text)
      → entity_ids (remove_state (some w) s id context).1 d
        ≡ (if id.domain == d then IdSet.remove (to_string id) (entity_ids s d) else entity_ids s d)
  unfolding remove_state entity_ids IdSet.remove
  entity_ids-remove_state w s id context d =
      ground (arith, lookup-modify id.domain d (IdSet.remove (to_string id)) s.domain_index)

  remove_state-indexed :
      (old : Option (State Json)) (s : StateStore Json) (id : EntityId) (context : Context)
      (d k : Text)
      → IsValidId id
      → IsConsistent s
      → get s (to_string id) ≡ old
      → count k (entity_ids (remove_state old s id context).1 d)
        ≡ in_domain d (if to_string id == k then none else get s k)
  unfolding remove_state
  remove_state-indexed none s id context d k h c o =
      ground (arith, ==_iff (to_string id) k, c.indexed d k)
  remove_state-indexed (some w) s id context d k h c o =
      let before : w.entity_id ≡ id = IsStored-id id w h (c.stored (to_string id) w o) in
      ground (
        arith,
        entity_ids-remove_state w s id context d,
        count-remove (to_string id) k (entity_ids s d),
        ==_iff (to_string id) k,
        c.indexed d k,
        ap (λ (i : EntityId). i.domain == d) before,
      )

  remove-indexed :
      (s : StateStore Json) (id : EntityId) (context : Context) (d k : Text)
      → IsValidId id
      → IsConsistent s
      → let s' = (remove s id context).1 in count k (entity_ids s' d) ≡ in_domain d (get s' k)
  unfolding remove get
  remove-indexed s id context d k h c =
      rw ((get-remove s id context k).1)
        (remove_state-indexed (get s (to_string id)) s id context d k h c refl)

  -- `remove` of a valid entity id keeps the store consistent.
  pub remove-IsConsistent :
      (s : StateStore Json) (id : EntityId) (context : Context)
      → IsValidId id
      → IsConsistent s
      → IsConsistent (remove s id context).1
  remove-IsConsistent s id context h c = record {
    stored = λ k v p. c.stored k v (ground (arith, (get-remove s id context k).1));
    indexed = λ d k. remove-indexed s id context d k h c;
  }
