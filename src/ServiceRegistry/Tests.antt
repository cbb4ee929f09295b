-- ===== src/ServiceRegistry/Tests.antt =====
-- The registry at concrete services; a `serde_json::Value` is a text, and the world is the list of the
-- services that were called.
use homeassistant_rs.Base.{
  ◌+◌, ◌≡◌, refl, false, none, some, List, [], ◌∷◌, list_eq, nat_eq, ok, if◌then◌else◌, length,
}
use homeassistant_rs.Base.Text.{Text, text}
use homeassistant_rs.Base.IdSet
use homeassistant_rs.Core.Context.{Context}
use homeassistant_rs.Core.ServiceCall.{SupportsResponse, optional}
use homeassistant_rs.ServiceRegistry.{
  ServiceHandler, ServiceDescription, ServiceRegistry, new, register, call, get_service,
  domain_services, unregister_domain, service_count,
}
use homeassistant_rs.ServiceRegistry.Keys.{Change, registration, removal, run, run-new-IsKeyed}
use homeassistant_rs.ServiceRegistry.Calls.{refusal, key_beq, answer, call-register}
use homeassistant_rs.ServiceRegistry.Domains.{outside, unregister_domain_lem}

abbrev World : Type 0
World = List Text

abbrev log : ServiceHandler Text World
log c w = (ok (some c.service_data), c.service ∷ w)

abbrev nobody : Context
nobody = record { id = text "c"; user_id = none; parent_id = none }

abbrev changes : List (Change Text World)
changes =
    registration (text "light") (text "turn_on") log none optional
    ∷ registration (text "light") (text "turn_off") log none SupportsResponse.none
    ∷ registration (text "switch") (text "toggle") log none optional
    ∷ removal (text "light") (text "turn_off")
    ∷ []

abbrev services : ServiceRegistry Text World
services = run changes new

call-register_example :
    call
      (register (text "fan") (text "stop") log none SupportsResponse.none services)
      (text "fan")
      (text "stop")
      (text "{}")
      nobody
      false
      []
    ≡ (if key_beq (text "fan") (text "stop") (text "fan") (text "stop")
        then answer
            (refusal SupportsResponse.none false)
            log
            (text "fan")
            (text "stop")
            (text "{}")
            nobody
            false
            []
        else call services (text "fan") (text "stop") (text "{}") nobody false [])
unfolding IdSet.contains
call-register_example =
    call-register (text "fan") (text "stop") log none SupportsResponse.none services (text "fan")
      (text "stop") (text "{}") nobody false [] refl refl

abbrev toggle : ServiceDescription Text
toggle = record {
  domain = text "switch";
  service = text "toggle";
  name = none;
  description = none;
  schema = none;
  target = none;
  supports_response = optional;
}

unregister_domain_lem_example :
    let (n, t) = unregister_domain (text "light") services in
    (n ≡ length (domain_services services (text "light")))
    × (n + service_count t ≡ service_count services)
    × ((d s : Text) → get_service t d s ≡ outside (text "light") (get_service services d s))
unregister_domain_lem_example =
    unregister_domain_lem (text "light") services (run-new-IsKeyed changes)
