-- ===== src/StateStore/Queries.antt =====
-- The queries of the state store by domain.
use mathlib.Core.List.{Memᴰ}
use homeassistant_rs.Base.{
  ◌≡◌, ◌↔◌, some, arith, ==_iff, list_eq, nat_eq, filter_map-mem, mem-filter_map,
}
use homeassistant_rs.Base.Text.{Text}
use homeassistant_rs.Core.EntityId.{to_string}
use homeassistant_rs.Core.State.{State}
use homeassistant_rs.StateStore.{StateStore, get, entity_ids, domain_states}
use homeassistant_rs.StateStore.Consistency.{IsConsistent}

module _ {Json : Type 0} where
  -- In a consistent store the states of a domain are the stored states whose entity is of the domain.
  pub domain_states-mem_iff :
      (s : StateStore Json) (d : Text) (v : State Json)
      → IsConsistent s
      → Memᴰ v (domain_states s d)
        ↔ ((v.entity_id.domain ≡ d) × (get s (to_string v.entity_id) ≡ some v))
  unfolding domain_states
  domain_states-mem_iff s d v c = (
    λ m.
        let (k, p, n) = mem-filter_map (get s) v (entity_ids s d) m in
        (
          ground (arith, c.indexed d k, ==_iff v.entity_id.domain d),
          ground (arith, (c.stored k v p).keyed),
        ),
    λ h. filter_map-mem (get s) v (to_string v.entity_id) (entity_ids s d) h.1 (
        ground (arith, c.indexed d (to_string v.entity_id), ==_iff v.entity_id.domain d, h.0, h.1)),
  )
