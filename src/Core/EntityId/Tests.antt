-- ===== src/Core/EntityId/Tests.antt =====
-- Entity ids at concrete texts, those of the tests in entity_id.rs among them.
use homeassistant_rs.Base.{◌≡◌, ◌↔◌, refl, ok, err}
use homeassistant_rs.Base.Text.{text, split, starts_with, ends_with, contains_text}
use homeassistant_rs.Core.EntityId.{
  EntityId, invalid_format, empty_domain, empty_object_id, invalid_domain_chars,
  invalid_object_id_chars, new, from_str, to_string, is_valid_domain, is_valid_object_id,
  is_id_char,
}
use homeassistant_rs.Core.EntityId.Parsing.{IsValidId, from_str-ok_iff}

abbrev living_room : EntityId
living_room = record { domain = text "light"; object_id = text "living__room" }

parse_living_room : from_str (text "light.living__room") ≡ ok living_room
unfolding from_str new is_valid_domain is_valid_object_id is_id_char split starts_with ends_with
    contains_text
parse_living_room = refl

parse_errors :
    (from_str (text "no_separator") ≡ err invalid_format)
    × (from_str (text "too.many.parts") ≡ err invalid_format)
    × (from_str (text ".object") ≡ err empty_domain)
    × (from_str (text "domain.") ≡ err empty_object_id)
    × (from_str (text "with-dash.object") ≡ err invalid_domain_chars)
    × (from_str (text "my__light.room") ≡ err invalid_domain_chars)
    × (from_str (text "light.room_") ≡ err invalid_object_id_chars)
unfolding from_str new is_valid_domain is_valid_object_id is_id_char split starts_with ends_with
    contains_text
parse_errors = (refl, refl, refl, refl, refl, refl, refl)

living_room-IsValidId : IsValidId living_room
living_room-IsValidId =
    ((from_str-ok_iff (text "light.living__room") living_room).0 parse_living_room).0

from_str-ok_iff_example :
    (from_str (text "light.living__room") ≡ ok living_room)
    ↔ (IsValidId living_room × (text "light.living__room" ≡ to_string living_room))
from_str-ok_iff_example = from_str-ok_iff (text "light.living__room") living_room
