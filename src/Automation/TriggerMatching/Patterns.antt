-- ===== src/Automation/TriggerMatching/Patterns.antt =====
-- Time patterns of crates/ha-automation/src/trigger_eval.rs.
use homeassistant_rs.Base.{ℕ, ◌≡◌, refl, ap, [], ◌∷◌, ◌++◌, err, list_beq}
use homeassistant_rs.Base.Text.{
  Text, text, trim, trim_start, trim_end, is_whitespace, cons_or_trim, strip_prefix, parse_uint,
  parse_digits,
}
use homeassistant_rs.Automation.Trigger.{invalid_config}
use homeassistant_rs.Automation.TriggerMatching.{matches_time_pattern, is_target}

kept_slash : (s : Text) → cons_or_trim 47 s ≡ 47 ∷ s
unfolding is_whitespace
kept_slash [] = refl
kept_slash (c ∷ s) = refl

trim_star : (s : Text) → trim (42 ∷ 47 ∷ s) ≡ 42 ∷ 47 ∷ trim_end s
unfolding trim trim_end trim_start is_whitespace
trim_star s = ap (cons_or_trim 42) (kept_slash (trim_end s))

-- A pattern that starts with "*/" is refused as an invalid time pattern, whatever follows.
pub matches_time_pattern_star :
    (s : Text) (value : ℕ)
    → matches_time_pattern (text "*/" ++ s) value
      ≡ err (invalid_config (text "Invalid time pattern: " ++ (text "*/" ++ trim_end s)))
unfolding matches_time_pattern list_beq strip_prefix parse_uint parse_digits is_target
matches_time_pattern_star s value = rw (trim_star s) refl
