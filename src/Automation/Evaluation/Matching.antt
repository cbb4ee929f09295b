-- ===== src/Automation/Evaluation/Matching.antt =====
-- When a state condition of crates/ha-automation/src/eval.rs holds.
use homeassistant_rs.Base.{
  true, false, ◌≡◌, refl, ◌↔◌, ◌⊎◌, inl, inr, Option, none, some, List, [], ◌∷◌, ok, arith, All,
  All-iff, iff_trans, ==_iff, ◌==◌, list_eq, nat_eq, any, Bool-cases,
}
use homeassistant_rs.Base.Text.{Text}
use homeassistant_rs.Core.State.{State}
use homeassistant_rs.Base.Json.{Value}
use homeassistant_rs.StateStore.{get}
use homeassistant_rs.Automation.Trigger.{ids, matches, StateMatch, single, list}
use homeassistant_rs.Automation.Condition.{StateCondition}
use homeassistant_rs.Automation.Runtime.{Store, Runtime}
use homeassistant_rs.Automation.EvalContext.{EvalContext}
use homeassistant_rs.Automation.Evaluation.{eval_state, state_holds}
use homeassistant_rs.Automation.Evaluation.Loops.{try_all-true_iff}

-- The text is one of those in the list.
abbrev pub IsOneOf : Text → List Text → Type 0
IsOneOf s [] = ⊥
IsOneOf s (x ∷ xs) = (x ≡ s) ⊎ IsOneOf s xs

pub any-IsOneOf : (s : Text) (xs : List Text) → (any (λ x. x == s) xs ≡ true) ↔ IsOneOf s xs
any-IsOneOf s [] = (λ h. cc, λ h. absurd h)
any-IsOneOf s (x ∷ xs) = (to (any-IsOneOf s xs).0, from (any-IsOneOf s xs).1)
  where
    to :
        (any (λ x. x == s) xs ≡ true → IsOneOf s xs)
        → any (λ x. x == s) (x ∷ xs) ≡ true
        → IsOneOf s (x ∷ xs)
    to rest h = elim (Bool-cases (x == s)) [
      | inl t ↦ inl ((==_iff x s).0 t)
      | inr t ↦ inr (rest (ground (arith, t, h)))
    ]

    from :
        (IsOneOf s xs → any (λ x. x == s) xs ≡ true)
        → IsOneOf s (x ∷ xs)
        → any (λ x. x == s) (x ∷ xs) ≡ true
    from rest (inl p) = ground (arith, (==_iff x s).1 p)
    from rest (inr h) = ground (arith, rest h)

-- The specification lists the state.
abbrev pub Lists : StateMatch → Text → Type 0
Lists (single wanted) s = wanted ≡ s
Lists (list options) s = IsOneOf s options

pub matches-Lists : (wanted : StateMatch) (s : Text) → (matches wanted s ≡ true) ↔ Lists wanted s
unfolding matches
matches-Lists (single wanted) s = ==_iff wanted s
matches-Lists (list options) s = any-IsOneOf s options

-- The entity is stored with a state that the specification lists.
abbrev pub Has : Store → StateMatch → Text → Type 0
Has store wanted id = (s : State Value) × (get store id ≡ some s) × Lists wanted s.state

module _ (rt : Runtime) (store : Store) where
  stored :
      (c : StateCondition) (id : Text)
      → state_holds rt store c id ≡ ok true
      → c.attribute ≡ none
      → c.match_regex ≡ false
      → (o : Option (State Value)) → get store id ≡ o
      → Has store c.state id
  unfolding state_holds
  stored c id h plain exact none e = absurd (ground arith)
  stored c id h plain exact (some s) e =
      let matched : matches c.state s.state ≡ true = ground arith in
      (s, e, (matches-Lists c.state s.state).0 matched)

  entity_holds :
      (c : StateCondition)
      → c.attribute ≡ none
      → c.match_regex ≡ false
      → (id : Text) → (state_holds rt store c id ≡ ok true) ↔ Has store c.state id
  unfolding state_holds
  entity_holds c plain exact id = (λ h. stored c id h plain exact (get store id) refl, λ h. holds h)
    where
      holds : Has store c.state id → state_holds rt store c id ≡ ok true
      holds (s, found, listed) =
          let matched : matches c.state s.state ≡ true = (matches-Lists c.state s.state).1 listed in
          ground arith

  -- A state condition on states, without a pattern, holds exactly when each entity that it names is
  -- stored with a state that is equal to one that the condition lists, whatever its `for` is.
  pub eval_state-true_iff :
      (c : StateCondition) (ctx : EvalContext)
      → c.attribute ≡ none
      → c.match_regex ≡ false
      → (eval_state rt store c ctx ≡ ok true) ↔ All (Has store c.state) (ids c.entity_id)
  unfolding eval_state
  eval_state-true_iff c ctx plain exact =
      iff_trans (try_all-true_iff (state_holds rt store c) (ids c.entity_id))
        (All-iff (entity_holds c plain exact) (ids c.entity_id))
