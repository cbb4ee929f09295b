-- ===== src/Script/Context.antt =====
-- crates/ha-script/src/executor.rs: the context of an execution.
use homeassistant_rs.Base.{ℕ, Bool, true, Option, none, some, [], ◌∷◌, nat_eq, list_eq}
use homeassistant_rs.Base.Text.{Text, text}
use homeassistant_rs.Base.Map
use homeassistant_rs.Base.Map.{Map}
use homeassistant_rs.Base.Json.{Value, null, bool, number, object, pos_int, from_map}
use homeassistant_rs.Automation.Trigger.{TriggerData}
use homeassistant_rs.Automation.EvalContext
use homeassistant_rs.Automation.EvalContext.{EvalContext}

pub record RepeatContext : Type 0 where
  pub index : ℕ
  pub first : Bool
  pub last : Bool
  pub item : Option Value

-- `remaining_secs` is always 0.
pub record WaitContext : Type 0 where
  pub trigger : Option TriggerData
  pub remaining_secs : ℕ
  pub completed : Bool

pub record ExecutionContext : Type 0 where
  pub variables : Map Text Value
  pub trigger : Option TriggerData
  pub response : Option Value
  pub stop_on_condition_fail : Bool
  pub repeat : Option RepeatContext
  pub wait : Option WaitContext

unfoldable pub new : ExecutionContext
new = record {
  variables = [];
  trigger = none;
  response = none;
  stop_on_condition_fail = true;
  repeat = none;
  wait = none;
}

unfoldable pub with_trigger : TriggerData → ExecutionContext
unfolding new
with_trigger t = record new { trigger = some t }

unfoldable pub set_var : Text → Value → ExecutionContext → ExecutionContext
set_var k value ctx = record ctx { variables = Map.insert k value ctx.variables }

unfoldable pub get_var : Text → ExecutionContext → Option Value
get_var k ctx = Map.lookup k ctx.variables

-- The JSON objects of the repeat and of the wait context.
unfoldable pub repeat_object : RepeatContext → Value
unfolding from_map
repeat_object r =
    let base : Map Text Value =
      (text "index", number (pos_int r.index))
      ∷ (text "first", bool r.first)
      ∷ (text "last", bool r.last)
      ∷ [] in
    object (from_map (elim r.item [ none ↦ base | some item ↦ Map.insert (text "item") item base ]))

unfoldable pub wait_object : (TriggerData → Value) → WaitContext → Value
unfolding from_map
wait_object to_value w = object (
    from_map (
      (text "trigger", elim w.trigger [ none ↦ null | some t ↦ to_value t ])
      ∷ (text "remaining", number (pos_int w.remaining_secs))
      ∷ (text "completed", bool w.completed)
      ∷ []))

abbrev insert_some : {A : Type 0} → Text → (A → Value) → Option A → Map Text Value → Map Text Value
insert_some k to_value none vars = vars
insert_some k to_value (some a) vars = Map.insert k (to_value a) vars

-- `to_value` is `serde_json::to_value` of a trigger.
unfoldable pub to_template_vars : (TriggerData → Value) → ExecutionContext → Value
unfolding from_map repeat_object wait_object
to_template_vars to_value ctx = object (
    from_map (
      insert_some (text "wait") (wait_object to_value) ctx.wait (
        insert_some (text "repeat") repeat_object ctx.repeat
          (insert_some (text "trigger") to_value ctx.trigger ctx.variables))))

unfoldable pub to_eval_context : ExecutionContext → EvalContext
unfolding EvalContext.new EvalContext.with_trigger
to_eval_context ctx =
    let base : EvalContext = elim ctx.trigger [
      | none ↦ EvalContext.new
      | some t ↦ EvalContext.with_trigger t
    ] in
    record base { variables = Map.extend base.variables ctx.variables }
