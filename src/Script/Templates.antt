-- ===== src/Script/Templates.antt =====
-- `render_value` of crates/ha-script/src/executor.rs, and `TemplateEngine::is_template`.
use homeassistant_rs.Base.{Bool, ◌||◌, [], ◌∷◌, Result, ok, err, ◌>>=◌, if◌then◌else◌}
use homeassistant_rs.Base.Text.{Text, text, contains_text}
use homeassistant_rs.Base.Map.{Map}
use homeassistant_rs.Base.Json.{
  Value, null, bool, number, string, array, object, Items, nil, cons, Fields, end, field,
}
use homeassistant_rs.Automation.Runtime.{Store, Runtime}
use homeassistant_rs.Script.Machine.{template, Failure, error}

unfoldable pub is_template : Text → Bool
unfolding contains_text
is_template s =
    contains_text s (text "{{") || contains_text s (text "{%") || contains_text s (text "{#")

module _ (rt : Runtime) (store : Store) (vars : Value) where
  -- `render_with_context(..)?`.
  unfoldable pub render : Text → Result Failure Text
  render s = elim (rt.render store s vars) [
    | ok rendered ↦ ok rendered
    | err e ↦ err (error (template e))
  ]

  unfoldable pub render_string : Text → Result Failure Value
  unfolding render is_template
  render_string s =
      if is_template s
      then (render s >>= λ rendered. elim (rt.from_str rendered) [
        | ok v ↦ ok v
        | err _ ↦ ok (string rendered)
      ])
      else ok (string s)

  unfoldable mutual
    unfolding render_string

    pub render_value : Value → Result Failure Value
    render_value null = ok null
    render_value (bool b) = ok (bool b)
    render_value (number n) = ok (number n)
    render_value (string s) = render_string s
    render_value (array vs) = render_items vs >>= λ vs'. ok (array vs')
    render_value (object fs) = render_fields fs >>= λ fs'. ok (object fs')

    pub render_items : Items → Result Failure Items
    render_items nil = ok nil
    render_items (cons v vs) =
        let rest = render_items vs in render_value v >>= λ v'. rest >>= λ vs'. ok (cons v' vs')

    pub render_fields : Fields → Result Failure Fields
    render_fields end = ok end
    render_fields (field k v fs) =
        let rest = render_fields fs in render_value v >>= λ v'. rest >>= λ fs'. ok (field k v' fs')

  -- The loops over the data of a service call or of an event.
  unfoldable pub render_map : Map Text Value → Result Failure (Map Text Value)
  unfolding render_value
  render_map [] = ok []
  render_map ((k, v) ∷ m) =
      let rest = render_map m in render_value v >>= λ v'. rest >>= λ m'. ok ((k, v') ∷ m')
