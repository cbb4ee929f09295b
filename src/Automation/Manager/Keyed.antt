-- ===== src/Automation/Manager/Keyed.antt =====
-- Every automation of the manager of crates/ha-automation/src/automation.rs is under its id.
use homeassistant_rs.Base.{
  Bool, true, false, not, ◌≡◌, refl, sym, ap, ◌∙◌, if◌then◌else◌, Option, none, some, List, [], ◌∷◌,
  ◌==◌, nat_eq, list_eq, ==_iff, arith,
}
use homeassistant_rs.Base.Text.{Text}
use homeassistant_rs.Base.Map
use homeassistant_rs.Base.Map.{lookup-insert, lookup-remove, lookup-modify, lookup-empty}
use homeassistant_rs.Core.State.{Time}
use homeassistant_rs.Automation.Manager.{
  AutomationConfig, Automation, AutomationManager, from_config, load, enable, disable, toggle,
  remove, add, mark_triggered, increment_runs, decrement_runs, reload, change_found, remove_found,
  add_checked,
}

module _ {Json Steps : Type 0} where
  abbrev pub IsKeyed : AutomationManager Json Steps → Type 0
  IsKeyed m = (id : Text) (a : Automation Json Steps) → Map.lookup id m ≡ some a → a.id ≡ id

  insert-IsKeyed :
      (a : Automation Json Steps) (m : AutomationManager Json Steps)
      → IsKeyed m
      → IsKeyed (Map.insert a.id a m)
  insert-IsKeyed a m k id b h = ground (arith, lookup-insert a.id id a m, ==_iff a.id id, k id b)

  remove_key-IsKeyed :
      (j : Text) (m : AutomationManager Json Steps) → IsKeyed m → IsKeyed (Map.remove j m)
  remove_key-IsKeyed j m k id b h = ground (arith, lookup-remove j id m, k id b)

  -- A change that keeps the id.
  abbrev KeepsId : (Automation Json Steps → Automation Json Steps) → Type 0
  KeepsId f = (a : Automation Json Steps) → (f a).id ≡ a.id

  kept :
      (f : Automation Json Steps → Automation Json Steps)
      → KeepsId f
      → (id : Text) (b : Automation Json Steps) (o : Option (Automation Json Steps))
      → ((a : Automation Json Steps) → o ≡ some a → a.id ≡ id)
      → (here : Bool) → (if here then Map.map_option f o else o) ≡ some b
      → b.id ≡ id
  kept f keeps id b none k true h = cc
  kept f keeps id b none k false h = cc
  kept f keeps id b (some a) k true h =
      let same : f a ≡ b = cc in
      sym (ap (λ (x : Automation Json Steps). x.id) same) ∙ (keeps a ∙ k a refl)
  kept f keeps id b (some a) k false h = k b h

  modify-IsKeyed :
      (j : Text) (f : Automation Json Steps → Automation Json Steps)
      → KeepsId f
      → (m : AutomationManager Json Steps) → IsKeyed m
      → IsKeyed (Map.modify j f m)
  modify-IsKeyed j f keeps m k id b h =
      kept f keeps id b (Map.lookup id m) (k id) (j == id) (sym (lookup-modify j id f m) ∙ h)

  change-IsKeyed :
      {R : Type 0} (o : Option (Automation Json Steps)) (j : Text)
      (result : Automation Json Steps → R) (f : Automation Json Steps → Automation Json Steps)
      → KeepsId f
      → (m : AutomationManager Json Steps) → IsKeyed m
      → IsKeyed (change_found o j result f m).1
  unfolding change_found
  change-IsKeyed none j result f keeps m k = k
  change-IsKeyed (some a) j result f keeps m k = modify-IsKeyed j f keeps m k

  remove-IsKeyed :
      (o : Option (Automation Json Steps)) (j : Text) (m : AutomationManager Json Steps)
      → IsKeyed m
      → IsKeyed (remove_found o j m).1
  unfolding remove_found
  remove-IsKeyed none j m k = k
  remove-IsKeyed (some a) j m k = remove_key-IsKeyed j m k

  add-IsKeyed :
      (there : Bool) (a : Automation Json Steps) (m : AutomationManager Json Steps)
      → IsKeyed m
      → IsKeyed (add_checked there a m).1
  unfolding add_checked
  add-IsKeyed true a m k = k
  add-IsKeyed false a m k = insert-IsKeyed a m k

  load-IsKeyed :
      (configs : List (Text × AutomationConfig Json Steps)) (m : AutomationManager Json Steps)
      → IsKeyed m
      → IsKeyed (load configs m)
  unfolding load
  load-IsKeyed [] m k = k
  load-IsKeyed ((ulid, config) ∷ configs) m k =
      load-IsKeyed configs _ (insert-IsKeyed (from_config ulid config) m k)

-- A call of the manager.
pub data Call (Json Steps : Type 0) : Type 0 where
  load_all reload_all : List (Text × AutomationConfig Json Steps) → Call Json Steps
  enabling disabling toggling removing incrementing decrementing : Text → Call Json Steps
  adding : Text → AutomationConfig Json Steps → Call Json Steps
  marking : Text → Time → Call Json Steps

module _ {Json Steps : Type 0} where
  abbrev pub step : Call Json Steps → AutomationManager Json Steps → AutomationManager Json Steps
  step (load_all configs) m = load configs m
  step (reload_all configs) m = reload configs m
  step (enabling id) m = (enable id m).1
  step (disabling id) m = (disable id m).1
  step (toggling id) m = (toggle id m).1
  step (removing id) m = (remove id m).1
  step (incrementing id) m = increment_runs id m
  step (decrementing id) m = decrement_runs id m
  step (adding ulid config) m = (add ulid config m).1
  step (marking id now) m = mark_triggered id now m

  abbrev pub run :
      List (Call Json Steps) → AutomationManager Json Steps → AutomationManager Json Steps
  run [] m = m
  run (c ∷ cs) m = run cs (step c m)

  step-IsKeyed :
      (c : Call Json Steps) (m : AutomationManager Json Steps) → IsKeyed m → IsKeyed (step c m)
  unfolding enable disable toggle remove add increment_runs decrement_runs mark_triggered reload
  step-IsKeyed (load_all configs) m k = load-IsKeyed configs m k
  step-IsKeyed (reload_all configs) m k =
      load-IsKeyed configs []
        (λ id a h. absurd (ground (arith, lookup-empty {V = Automation Json Steps} id)))
  step-IsKeyed (enabling id) m k = change-IsKeyed (Map.lookup id m) id (λ _. tt) _ (λ a. refl) m k
  step-IsKeyed (disabling id) m k = change-IsKeyed (Map.lookup id m) id (λ _. tt) _ (λ a. refl) m k
  step-IsKeyed (toggling id) m k =
      change-IsKeyed (Map.lookup id m) id (λ a. not a.enabled) _ (λ a. refl) m k
  step-IsKeyed (removing id) m k = remove-IsKeyed (Map.lookup id m) id m k
  step-IsKeyed (incrementing id) m k = modify-IsKeyed id _ (λ a. refl) m k
  step-IsKeyed (decrementing id) m k = modify-IsKeyed id _ (λ a. refl) m k
  step-IsKeyed (adding ulid config) m k =
      add-IsKeyed (Map.contains_key (from_config ulid config).id m) (from_config ulid config) m k
  step-IsKeyed (marking id now) m k = modify-IsKeyed id _ (λ a. refl) m k

  -- After any calls on a manager in which each automation is under its id, as it is in a new one, each
  -- still is.
  pub run-IsKeyed :
      (cs : List (Call Json Steps)) (m : AutomationManager Json Steps)
      → IsKeyed m
      → IsKeyed (run cs m)
  run-IsKeyed [] m k = k
  run-IsKeyed (c ∷ cs) m k = run-IsKeyed cs (step c m) (step-IsKeyed c m k)
