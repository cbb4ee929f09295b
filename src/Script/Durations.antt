-- ===== src/Script/Durations.antt =====
-- `parse_duration` and the component durations of crates/ha-script. A duration is a number of
-- nanoseconds; the arithmetic of `u64` wraps, as it does in a release build.
use homeassistant_rs.Base.{
  ℕ, ◌+◌, ◌*◌, ◌%◌, ◌^◌, not, ◌&&◌, ◌||◌, Option, none, some, List, [], ◌∷◌, if◌then◌else◌, nat_beq,
}
use homeassistant_rs.Base.Text.{Text, trim, split, parse_uint}
use homeassistant_rs.Base.Json.{F64, is_nan, is_negative, magnitude}
use homeassistant_rs.Automation.Runtime.{Runtime}
use homeassistant_rs.Script.Action.{DelaySpec, components}

abbrev pub Duration : Type 0
Duration = ℕ

abbrev pub per_second : ℕ
per_second = 1_000_000_000

pub data Parsed : Type 0 where
  parsed : Duration → Parsed
  unreadable panics : Parsed

-- `Duration::from_millis` of the sum.
unfoldable pub from_components : ℕ → ℕ → ℕ → ℕ → Duration
from_components hours minutes seconds milliseconds =
    (hours * 3600 * 1000 + minutes * 60 * 1000 + seconds * 1000 + milliseconds) % 2 ^ 64 * 1_000_000

unfoldable pub to_duration : DelaySpec → Option Duration
unfolding from_components
to_duration (DelaySpec.template _) = none
to_duration (components hours minutes seconds milliseconds) =
    some (from_components hours minutes seconds milliseconds)

-- `Duration::from_secs_f64`, which panics at what is not a number, is negative or is too large.
unfoldable pub from_secs_f64 : Runtime → F64 → Parsed
from_secs_f64 rt secs =
    if is_nan secs || (is_negative secs && not (nat_beq (magnitude secs) 0))
    then panics
    else elim (rt.from_secs_f64 secs) [ none ↦ panics | some d ↦ parsed d ]

-- The match on the parts between colons.
unfoldable pub from_parts : List Text → Parsed
from_parts (a ∷ b ∷ []) = elim (parse_uint (2 ^ 64) a) [
  | none ↦ unreadable
  | some mins ↦ elim (parse_uint (2 ^ 64) b) [
    | none ↦ unreadable
    | some secs ↦ parsed ((mins * 60 + secs) % 2 ^ 64 * per_second)
  ]
]
from_parts (a ∷ b ∷ c ∷ []) = elim (parse_uint (2 ^ 64) a) [
  | none ↦ unreadable
  | some hours ↦ elim (parse_uint (2 ^ 64) b) [
    | none ↦ unreadable
    | some mins ↦ elim (parse_uint (2 ^ 64) c) [
      | none ↦ unreadable
      | some secs ↦ parsed ((hours * 3600 + mins * 60 + secs) % 2 ^ 64 * per_second)
    ]
  ]
]
from_parts _ = unreadable

unfoldable pub parse_duration : Runtime → Text → Parsed
unfolding from_secs_f64 from_parts trim split parse_uint
parse_duration rt s =
    let trimmed = trim s in
    elim (rt.parse_f64 trimmed) [
      | some secs ↦ from_secs_f64 rt secs
      | none ↦ from_parts (split trimmed 58)
    ]
