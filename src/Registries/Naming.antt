-- ===== src/Registries/Naming.antt =====
-- The names of crates/ha-registries/src/area_registry.rs, floor_registry.rs and label_registry.rs, which
-- have the same functions `normalize_name`, `slugify` and `generate_id`.
use homeassistant_rs.Base.{
  ℕ, zero, suc, ◌+◌, ◌%◌, Bool, not, ◌&&◌, Option, none, some, [], ◌∷◌, ◌++◌, list_eq, nat_eq, ◌==◌,
  filter, length, ltb, if◌then◌else◌,
}
use Prim.Native.Nat.{◌/◌}
use homeassistant_rs.Base.Text.{Text, text, ends_with}
use homeassistant_rs.Base.Map
use homeassistant_rs.Base.Map.{Map}

-- The tables of Unicode in the standard library: `char::is_alphanumeric`, `char::to_lowercase` and
-- `str::to_lowercase`.
pub record Unicode : Type 0 where
  pub is_alphanumeric : ℕ → Bool
  pub char_to_lowercase : ℕ → Text
  pub str_to_lowercase : Text → Text

-- `format!("{}", n)`: the digits of a number; `bound` is not less than it.
unfoldable pub decimal_within : ℕ → ℕ → Text
decimal_within zero n = (48 + n) ∷ []
decimal_within (suc bound) n =
    let before = decimal_within bound (n / 10) in
    if ltb n 10 then (48 + n) ∷ [] else before ++ (48 + n % 10) ∷ []

unfoldable pub decimal : ℕ → Text
unfolding decimal_within
decimal n = decimal_within n n

-- `s.trim_end_matches(c)`.
abbrev pub cons_or_drop : ℕ → ℕ → Text → Text
cons_or_drop c a [] = if a == c then [] else a ∷ []
cons_or_drop c a (b ∷ s) = a ∷ b ∷ s

unfoldable pub trim_end_matches : ℕ → Text → Text
trim_end_matches c [] = []
trim_end_matches c (a ∷ s) = cons_or_drop c a (trim_end_matches c s)

module _ (unicode : Unicode) where
  unfoldable pub normalize_name : Text → Text
  normalize_name name = filter (λ c. not (c == 32)) (unicode.str_to_lowercase name)

  -- A round of the loop of `slugify`.
  unfoldable pub push_char : Text → ℕ → Text
  unfolding ends_with
  push_char result c =
      if unicode.is_alphanumeric c
      then result ++ unicode.char_to_lowercase c
      else if not (result == []) && not (ends_with result 95)
      then result ++ 95 ∷ []
      else result

  unfoldable pub slugify_from : Text → Text → Text
  unfolding push_char
  slugify_from result [] = result
  slugify_from result (c ∷ name) = slugify_from (push_char result c) name

  unfoldable pub slugify : Text → Text
  unfolding slugify_from trim_end_matches
  slugify name = trim_end_matches 95 (slugify_from [] name)

-- `format!("{}_{}", base, tries)`.
unfoldable pub candidate : Text → ℕ → Text
unfolding decimal
candidate base tries = base ++ 95 ∷ decimal tries

module _ {Entry : Type 0} (by_id : Map Text Entry) where
  -- The loop of `generate_id`, for `rounds` rounds at most.
  unfoldable pub search : Text → ℕ → ℕ → Text
  unfolding candidate Map.lookup
  search base zero tries = candidate base tries
  search base (suc rounds) tries =
      let rest = search base rounds (tries + 1) in
      if Map.contains_key (candidate base tries) by_id then rest else candidate base tries

  -- One candidate of as many as there are entries, and one more, is free.
  unfoldable pub free_id : Text → Text
  unfolding search Map.lookup
  free_id base = if Map.contains_key base by_id then search base (length by_id) 2 else base

  unfoldable pub generate_id : Unicode → Text → Text
  unfolding free_id slugify
  generate_id unicode name = free_id (slugify unicode name)

-- The index of the names.
unfoldable pub insert_name : Option Text → Text → Map Text Text → Map Text Text
insert_name none id index = index
insert_name (some name) id index = Map.insert name id index

unfoldable pub remove_name : Option Text → Map Text Text → Map Text Text
remove_name none index = index
remove_name (some name) index = Map.remove name index

-- The error of a name that another entry has.
unfoldable pub name_in_use : Text → Text → Text
name_in_use name normalized =
    text "The name " ++ name ++ text " (" ++ normalized ++ text ") is already in use"
