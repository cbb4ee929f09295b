-- ===== src/Core/ServiceCall.antt =====
-- crates/ha-core/src/service_call.rs. `Json` stands for `serde_json::Value`.
use homeassistant_rs.Base.{◌++◌}
use homeassistant_rs.Base.Text.{Text, text}
use homeassistant_rs.Core.Context.{Context}

pub record ServiceCall (Json : Type 0) : Type 0 where
  pub domain : Text
  pub service : Text
  pub service_data : Json
  pub context : Context

module _ {Json : Type 0} where
  unfoldable pub new : Text → Text → Json → Context → ServiceCall Json
  new domain service service_data context = record {
    domain = domain;
    service = service;
    service_data = service_data;
    context = context;
  }

  unfoldable pub service_id : ServiceCall Json → Text
  service_id call = call.domain ++ text "." ++ call.service

pub data SupportsResponse : Type 0 where
  none optional only : SupportsResponse
