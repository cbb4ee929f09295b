-- ===== src/Registries/Tests.antt =====
-- The registries of areas, floors and labels at concrete entries.
use homeassistant_rs.Base.{
  ℕ, ◌≡◌, refl, Bool, ◌&&◌, ◌||◌, none, some, [], ◌∷◌, list_eq, list_beq, nat_eq, leb,
}
use homeassistant_rs.Base.Text.{Text, text, to_lowercase}
use homeassistant_rs.Base.Int.{pos, int_eq}
use homeassistant_rs.Base.Map
use homeassistant_rs.Base.Map.{Map}
use homeassistant_rs.Registries.Naming.{
  Unicode, decimal, normalize_name, slugify, generate_id, name_in_use,
}
use homeassistant_rs.Registries.Fresh.{IsFirstFree, generate_id-IsFirstFree}
use homeassistant_rs.Registries.AreaRegistry
use homeassistant_rs.Registries.AreaRegistry.{AreaEntry, AreaRegistry}
use homeassistant_rs.Registries.AreaRegistry.Integrity.{IsIndexed}
use homeassistant_rs.Registries.AreaRegistry.Runs.{
  Reach, start, by_create, by_update, Reach-IsIndexed, get_by_name-Reach, IsSame, update-err,
}
use homeassistant_rs.Registries.FloorRegistry
use homeassistant_rs.Registries.FloorRegistry.{FloorEntry, FloorRegistry}
use homeassistant_rs.Registries.FloorRegistry.Levels.{remove_hides_level}
use homeassistant_rs.Registries.LabelRegistry
use homeassistant_rs.Registries.LabelRegistry.{LabelEntry, LabelRegistry}
use homeassistant_rs.Registries.LabelRegistry.Removing
use homeassistant_rs.Registries.LabelRegistry.Removing.{remove-create}

abbrev is_ascii_alphanumeric : ℕ → Bool
is_ascii_alphanumeric c =
    (leb 48 c && leb c 57) || (leb 65 c && leb c 90) || (leb 97 c && leb c 122)

abbrev ascii : Unicode
ascii = record {
  is_alphanumeric = is_ascii_alphanumeric;
  char_to_lowercase = λ c. to_lowercase (c ∷ []);
  str_to_lowercase = to_lowercase;
}

decimal_1204 : decimal 1204 ≡ text "1204"
unfolding decimal
decimal_1204 = refl

slugify_bath : slugify ascii (text "  Bath -- Room! ") ≡ text "bath_room"
unfolding slugify list_beq to_lowercase
slugify_bath = refl

normalize_bath : normalize_name ascii (text "Bath Room") ≡ text "bathroom"
unfolding normalize_name to_lowercase
normalize_bath = refl

abbrev taken : Map Text ℕ
taken = (text "bath", 0) ∷ (text "bath_2", 1) ∷ []

third_bath : generate_id taken ascii (text "Bath") ≡ text "bath_3"
unfolding generate_id list_beq to_lowercase
third_bath = refl

generate_id-IsFirstFree_example :
    IsFirstFree taken (slugify ascii (text "Bath")) (generate_id taken ascii (text "Bath"))
generate_id-IsFirstFree_example = generate_id-IsFirstFree ascii (text "Bath") taken

abbrev empty_areas : AreaRegistry
empty_areas = AreaRegistry.new none

abbrev one_area : AreaRegistry
one_area = (AreaRegistry.create ascii (text "Bath Room") none 5 empty_areas).1

abbrev upstairs : AreaEntry → AreaEntry
upstairs e = record e { floor_id = some (text "first"); labels = text "wet" ∷ [] }

abbrev moved : AreaRegistry
moved = (AreaRegistry.update ascii (text "bath_room") upstairs none 6 one_area).1

abbrev two_areas : AreaRegistry
two_areas = (AreaRegistry.create ascii (text "Hall") none 7 moved).1

two_areas_Reach : Reach ascii two_areas
two_areas_Reach = by_create (text "Hall") none 7 moved (
    by_update (text "bath_room") upstairs none 6 one_area (λ e. refl)
      (by_create (text "Bath Room") none 5 empty_areas start))

Reach-IsIndexed_example : IsIndexed ascii two_areas
Reach-IsIndexed_example = Reach-IsIndexed ascii two_areas two_areas_Reach

hall_by_name :
    AreaRegistry.get_by_name ascii two_areas (text "h all")
    ≡ some (AreaRegistry.new_entry ascii (text "hall") (text "Hall") none 7)
unfolding AreaRegistry.get AreaRegistry.create AreaRegistry.update AreaRegistry.new Map.lookup
    Map.insert Map.remove list_beq to_lowercase
hall_by_name =
    get_by_name-Reach ascii two_areas (text "hall") (text "h all")
      (AreaRegistry.new_entry ascii (text "hall") (text "Hall") none 7) two_areas_Reach refl refl

abbrev as_hall : AreaEntry → AreaEntry
as_hall e = record e { name = text "HALL" }

update-err_example :
    IsSame (AreaRegistry.update ascii (text "bath_room") as_hall none 8 two_areas).1 two_areas
unfolding AreaRegistry.get AreaRegistry.create AreaRegistry.update AreaRegistry.new Map.lookup
    Map.insert Map.remove list_beq to_lowercase
update-err_example =
    update-err ascii (text "bath_room") as_hall none 8 two_areas
      (name_in_use (text "HALL") (text "hall")) two_areas_Reach refl

abbrev wing : Text → FloorEntry
wing id = FloorRegistry.new_entry ascii id id (some (pos 1)) none 0

abbrev two_wings : FloorRegistry
two_wings =
    FloorRegistry.index_entry (wing (text "west"))
      (FloorRegistry.index_entry (wing (text "east")) (FloorRegistry.new none))

remove_hides_level_example :
    (FloorRegistry.get (FloorRegistry.remove (text "west") two_wings).1 (text "east")
      ≡ some (wing (text "east")))
    × (FloorRegistry.get_by_level (FloorRegistry.remove (text "west") two_wings).1 (pos 1) ≡ none)
unfolding FloorRegistry.get FloorRegistry.index_entry FloorRegistry.new FloorRegistry.new_entry
    Map.lookup Map.insert list_beq
remove_hides_level_example =
    remove_hides_level two_wings (text "west") (text "east") (wing (text "west"))
      (wing (text "east")) (pos 1) refl refl refl refl refl refl

abbrev wet : LabelEntry
wet = LabelRegistry.new_entry ascii (text "wet") (text "Wet") none 3

abbrev no_labels : LabelRegistry
no_labels = LabelRegistry.new none

abbrev one_label : LabelRegistry
one_label = (LabelRegistry.create ascii (text "Wet") none 3 no_labels).1

remove-create_example :
    (LabelRegistry.get_by_name ascii one_label (text "Wet") ≡ some wet)
    × ((LabelRegistry.remove (text "wet") one_label).0 ≡ some wet)
    × Removing.IsSame (LabelRegistry.remove (text "wet") one_label).1 no_labels
unfolding LabelRegistry.new LabelRegistry.new_entry LabelRegistry.create Map.lookup list_beq
    to_lowercase
remove-create_example = remove-create ascii (text "Wet") none 3 no_labels wet refl
