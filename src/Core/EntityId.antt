-- ===== src/Core/EntityId.antt =====
-- crates/ha-core/src/entity_id.rs: an entity id, its checks, parser and printer.
pub mod Grammar
pub mod Split
pub mod Parsing
mod Tests
use homeassistant_rs.Base.{
  ℕ, Bool, true, false, not, ◌&&◌, ◌||◌, List, [], ◌∷◌, ◌++◌, leb, nat_beq, all, if◌then◌else◌,
  Result, ok, err,
}
use homeassistant_rs.Base.Text.{Text, text, starts_with, ends_with, contains_text, split}

pub data EntityIdError : Type 0 where
  invalid_format empty_domain empty_object_id invalid_domain_chars : EntityIdError
  invalid_object_id_chars : EntityIdError

pub record EntityId : Type 0 where
  pub domain : Text
  pub object_id : Text

abbrev pub is_empty : Text → Bool
is_empty [] = true
is_empty (_ ∷ _) = false

-- `c.is_ascii_lowercase() || c.is_ascii_digit() || c == '_'`
unfoldable pub is_ascii_lowercase : ℕ → Bool
is_ascii_lowercase c = leb b'a' c && leb c b'z'

unfoldable pub is_ascii_digit : ℕ → Bool
is_ascii_digit c = leb b'0' c && leb c b'9'

unfoldable pub is_id_char : ℕ → Bool
unfolding is_ascii_lowercase is_ascii_digit
is_id_char c = is_ascii_lowercase c || is_ascii_digit c || nat_beq c b'_'

unfoldable pub is_valid_object_id : Text → Bool
is_valid_object_id s = if starts_with s b'_' || ends_with s b'_' then false else all is_id_char s

unfoldable pub is_valid_domain : Text → Bool
is_valid_domain s = if contains_text s (text "__") then false else is_valid_object_id s

unfoldable pub new : Text → Text → Result EntityIdError EntityId
new domain object_id =
    if is_empty domain
    then err empty_domain
    else if is_empty object_id
    then err empty_object_id
    else if not (is_valid_domain domain)
    then err invalid_domain_chars
    else if not (is_valid_object_id object_id)
    then err invalid_object_id_chars
    else ok (record { domain = domain; object_id = object_id })

-- `parts.len() != 2` is the last clause.
unfoldable pub from_parts : List Text → Result EntityIdError EntityId
from_parts (domain ∷ object_id ∷ []) = new domain object_id
from_parts _ = err invalid_format

unfoldable pub from_str : Text → Result EntityIdError EntityId
unfolding from_parts
from_str s = from_parts (split s b'.')

-- `Display`.
unfoldable pub to_string : EntityId → Text
to_string id = id.domain ++ b'.' ∷ id.object_id
