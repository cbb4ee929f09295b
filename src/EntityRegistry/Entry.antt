-- ===== src/EntityRegistry/Entry.antt =====
-- crates/ha-registries/src/entity_registry.rs: the entries. `Json` stands for `serde_json::Value`; a
-- fresh UUID and the present are arguments. `orphaned_timestamp` is only ever copied: a `Time` here.
use homeassistant_rs.Base.{ℕ, Bool, Option, none, List, [], ◌∷◌, is_some}
use homeassistant_rs.Base.Text.{Text, split}
use homeassistant_rs.Core.State.{Time}

pub data DisabledBy : Type 0 where
  config_entry device hass integration user : DisabledBy

pub data HiddenBy : Type 0 where
  integration user : HiddenBy

pub data EntityCategory : Type 0 where
  config diagnostic : EntityCategory

pub record EntityEntry (Json : Type 0) : Type 0 where
  pub id : Text
  pub entity_id : Text
  pub unique_id : Option Text
  pub previous_unique_id : Option Text
  pub device_id : Option Text
  pub config_entry_id : Option Text
  pub config_subentry_id : Option Text
  pub name : Option Text
  pub original_name : Option Text
  pub suggested_object_id : Option Text
  pub has_entity_name : Option Bool
  pub platform : Text
  pub entity_category : Option EntityCategory
  pub device_class : Option Text
  pub original_device_class : Option Text
  pub disabled_by : Option DisabledBy
  pub hidden_by : Option HiddenBy
  pub icon : Option Text
  pub original_icon : Option Text
  pub unit_of_measurement : Option Text
  pub translation_key : Option Text
  pub supported_features : ℕ
  pub capabilities : Option Json
  pub options : Option Json
  pub area_id : Option Text
  pub labels : List Text
  pub aliases : List Text
  pub categories : Option Json
  pub created_at : Time
  pub modified_at : Time
  pub orphaned_timestamp : Option Time

-- `s.split('.').next()`, which is always something.
unfoldable pub first_part : Text → Text
first_part s = elim (split s b'.') [ [] ↦ [] | part ∷ parts ↦ part ]

module _ {Json : Type 0} where
  unfoldable pub new : Text → Time → Text → Text → Option Text → EntityEntry Json
  new uuid now entity_id platform unique_id = record {
    id = uuid;
    entity_id = entity_id;
    unique_id = unique_id;
    previous_unique_id = none;
    device_id = none;
    config_entry_id = none;
    config_subentry_id = none;
    name = none;
    original_name = none;
    suggested_object_id = none;
    has_entity_name = none;
    platform = platform;
    entity_category = none;
    device_class = none;
    original_device_class = none;
    disabled_by = none;
    hidden_by = none;
    icon = none;
    original_icon = none;
    unit_of_measurement = none;
    translation_key = none;
    supported_features = 0;
    capabilities = none;
    options = none;
    area_id = none;
    labels = [];
    aliases = [];
    categories = none;
    created_at = now;
    modified_at = now;
    orphaned_timestamp = none;
  }

  unfoldable pub domain : EntityEntry Json → Text
  unfolding first_part
  domain e = first_part e.entity_id

  unfoldable pub is_disabled : EntityEntry Json → Bool
  is_disabled e = is_some e.disabled_by

  unfoldable pub is_hidden : EntityEntry Json → Bool
  is_hidden e = is_some e.hidden_by
