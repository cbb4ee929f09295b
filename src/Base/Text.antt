-- ===== src/Base/Text.antt =====
-- Rust's `String` and `&str` as lists of Unicode scalar values.
use Prim.Native.Nat.{ℕ, ◌+◌, ◌-◌, ◌*◌}
use Prim.Native.Char.{code}
use Prim.Native.String.{String}
use mathlib.Core.Bool.{Bool, true, false, ◌&&◌, ◌||◌}
use mathlib.Core.List.{List, [], ◌∷◌}
use mathlib.Core.Option.{Option, none, some}
use homeassistant_rs.Base.Tests.{ltb, leb, nat_beq, if◌then◌else◌}

abbrev pub Text : Type 0
Text = List ℕ

-- A literal of the source.
abbrev pub text : String → Text
text String.[] = []
text (String.◌∷◌ c s) = code c ∷ text s

-- `char::len_utf8`.
unfoldable pub len_utf8 : ℕ → ℕ
len_utf8 c = if ltb c 0x80 then 1 else if ltb c 0x800 then 2 else if ltb c 0x10000 then 3 else 4

-- `str::len`, in bytes.
unfoldable pub byte_len : Text → ℕ
unfolding len_utf8
byte_len [] = 0
byte_len (c ∷ s) = len_utf8 c + byte_len s

-- `s.starts_with(c)` and `s.ends_with(c)` for a character.
unfoldable pub starts_with : Text → ℕ → Bool
starts_with [] c = false
starts_with (a ∷ s) c = nat_beq a c

unfoldable pub ends_with : Text → ℕ → Bool
ends_with [] c = false
ends_with (a ∷ []) c = nat_beq a c
ends_with (a ∷ b ∷ s) c = ends_with (b ∷ s) c

-- `s.starts_with(p)` and `s.contains(p)` for a text.
unfoldable pub starts_with_text : Text → Text → Bool
starts_with_text s [] = true
starts_with_text [] (b ∷ p) = false
starts_with_text (a ∷ s) (b ∷ p) = nat_beq a b && starts_with_text s p

unfoldable pub contains_text : Text → Text → Bool
unfolding starts_with_text
contains_text [] p = starts_with_text [] p
contains_text (a ∷ s) p = starts_with_text (a ∷ s) p || contains_text s p

abbrev pub cons_head : ℕ → List Text → List Text
cons_head a [] = (a ∷ []) ∷ []
cons_head a (part ∷ parts) = (a ∷ part) ∷ parts

-- `s.split(c).collect()`: always one part or more.
unfoldable pub split : Text → ℕ → List Text
split [] c = [] ∷ []
split (a ∷ s) c = let rest = split s c in if nat_beq a c then [] ∷ rest else cons_head a rest

-- `char::is_whitespace` (the property White_Space of Unicode).
unfoldable pub is_whitespace : ℕ → Bool
is_whitespace c =
    (leb 9 c && leb c 13)
    || nat_beq c 0x20
    || nat_beq c 0x85
    || nat_beq c 0xA0
    || nat_beq c 0x1680
    || (leb 0x2000 c && leb c 0x200A)
    || nat_beq c 0x2028
    || nat_beq c 0x2029
    || nat_beq c 0x202F
    || nat_beq c 0x205F
    || nat_beq c 0x3000

-- `str::trim_start`, `str::trim_end` and `str::trim`.
unfoldable pub trim_start : Text → Text
unfolding is_whitespace
trim_start [] = []
trim_start (c ∷ s) = let rest = trim_start s in if is_whitespace c then rest else c ∷ s

abbrev pub cons_or_trim : ℕ → Text → Text
cons_or_trim c [] = if is_whitespace c then [] else c ∷ []
cons_or_trim c (d ∷ s) = c ∷ d ∷ s

unfoldable pub trim_end : Text → Text
unfolding is_whitespace
trim_end [] = []
trim_end (c ∷ s) = cons_or_trim c (trim_end s)

unfoldable pub trim : Text → Text
unfolding trim_start trim_end
trim s = trim_end (trim_start s)

-- `str::to_ascii_lowercase`.
unfoldable pub to_lowercase : Text → Text
to_lowercase [] = []
to_lowercase (c ∷ s) = (if leb 0x41 c && leb c 0x5A then c + 32 else c) ∷ to_lowercase s

-- `s.strip_prefix(p)`.
unfoldable pub strip_prefix : Text → Text → Option Text
strip_prefix [] s = some s
strip_prefix (a ∷ p) [] = none
strip_prefix (a ∷ p) (b ∷ s) = let rest = strip_prefix p s in if nat_beq a b then rest else none

-- `s.split_once(c)`: the parts before and after the first `c`.
unfoldable pub split_once : Text → ℕ → Option (Text × Text)
split_once [] c = none
split_once (a ∷ s) c =
    let rest : Option (Text × Text) = elim (split_once s c) [
      | none ↦ none
      | some (before, after) ↦ some (a ∷ before, after)
    ] in
    if nat_beq a c then some ([], s) else rest

-- The digits of a number, read after `acc`.
unfoldable pub parse_digits : Text → ℕ → Option ℕ
parse_digits [] acc = some acc
parse_digits (c ∷ s) acc =
    let rest = parse_digits s (acc * 10 + (c - 48)) in if leb 48 c && leb c 57 then rest else none

abbrev below : ℕ → Option ℕ → Option ℕ
below bound none = none
below bound (some n) = if ltb n bound then some n else none

abbrev parse_unsigned : ℕ → Text → Option ℕ
parse_unsigned bound [] = none
parse_unsigned bound (c ∷ s) = below bound (parse_digits (c ∷ s) 0)

-- `str::parse` to an unsigned integer below `bound`: digits, after a `+` or not.
unfoldable pub parse_uint : ℕ → Text → Option ℕ
unfolding parse_digits
parse_uint bound [] = none
parse_uint bound (c ∷ s) =
    if nat_beq c 43 then parse_unsigned bound s else parse_unsigned bound (c ∷ s)
