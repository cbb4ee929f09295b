-- ===== src/ServiceRegistry.antt =====
-- crates/ha-service-registry/src/lib.rs: the services and the calls on them. A handler is a function
-- of its call and of `World`, all that it can read and change; it returns when it is called, so what
-- other tasks do while it waits is not modelled.
pub mod Keys
pub mod Calls
pub mod Domains
pub mod Listing
mod Tests
use homeassistant_rs.Base.{
  ℕ, Bool, true, false, not, ◌&&◌, Option, none, some, List, [], ◌∷◌, ◌++◌, map, ◌==◌, list_eq,
  nat_eq, Result, ok, err, filter, length, if◌then◌else◌, is_some, unwrap_or, sort, dedup,
}
use homeassistant_rs.Base.Text.{Text, text}
use homeassistant_rs.Base.Map
use homeassistant_rs.Base.Map.{Map}
use homeassistant_rs.Core.Context.{Context}
use homeassistant_rs.Core.ServiceCall
use homeassistant_rs.Core.ServiceCall.{ServiceCall, SupportsResponse, only, optional}

pub data ServiceError : Type 0 where
  not_found : Text → Text → ServiceError
  call_failed : Text → ServiceError
  invalid_data : Text → ServiceError
  response_not_supported response_required : ServiceError

abbrev pub ServiceResult : Type 0 → Type 0
ServiceResult Json = Result ServiceError (Option Json)

pub record ServiceDescription (Json : Type 0) : Type 0 where
  pub domain : Text
  pub service : Text
  pub name : Option Text
  pub description : Option Text
  pub schema : Option Json
  pub target : Option Json
  pub supports_response : SupportsResponse

abbrev pub ServiceHandler : Type 0 → Type 0 → Type 0
ServiceHandler Json World = ServiceCall Json → World → ServiceResult Json × World

pub record RegisteredService (Json World : Type 0) : Type 0 where
  pub handler : ServiceHandler Json World
  pub description : ServiceDescription Json

pub record ServiceRegistry (Json World : Type 0) : Type 0 where
  pub services : Map Text (RegisteredService Json World)

-- `format!("{}.{}", domain, service)`.
unfoldable pub key : Text → Text → Text
key domain service = domain ++ text "." ++ service

abbrev pub refuses_response : SupportsResponse → Bool
refuses_response SupportsResponse.none = true
refuses_response _ = false

abbrev pub requires_response : SupportsResponse → Bool
requires_response only = true
requires_response _ = false

-- `handler(call).await?`, and the response if it was asked for.
abbrev pub respond :
    {Json World : Type 0} → Bool → ServiceResult Json × World → ServiceResult Json × World
respond return_response (err e, w) = (err e, w)
respond return_response (ok result, w) = (ok (if return_response then result else none), w)

module _ {Json : Type 0} where
  -- The loop of `all_services`.
  unfoldable pub group :
      List (ServiceDescription Json)
      → Map Text (List (ServiceDescription Json))
      → Map Text (List (ServiceDescription Json))
  group [] result = result
  group (d ∷ ds) result =
      group ds (Map.insert d.domain (unwrap_or (Map.lookup d.domain result) [] ++ d ∷ []) result)

module _ {Json World : Type 0} where
  unfoldable pub new : ServiceRegistry Json World
  new = record { services = [] }

  unfoldable pub register_with_description :
      ServiceDescription Json
      → ServiceHandler Json World
      → ServiceRegistry Json World
      → ServiceRegistry Json World
  unfolding key
  register_with_description d handler r = record {
    services =
        Map.insert (key d.domain d.service) (record { handler = handler; description = d })
          r.services;
  }

  unfoldable pub register :
      Text
      → Text
      → ServiceHandler Json World
      → Option Json
      → SupportsResponse
      → ServiceRegistry Json World
      → ServiceRegistry Json World
  unfolding key
  register domain service handler schema supports_response r = record {
    services =
        Map.insert (key domain service)
          (record {
            handler = handler;
            description = record {
              domain = domain;
              service = service;
              name = none;
              description = none;
              schema = schema;
              target = none;
              supports_response = supports_response;
            };
          })
          r.services;
  }

  -- The two checks of `call`, and the call of the handler.
  unfoldable pub call_registered :
      Option (RegisteredService Json World)
      → Text
      → Text
      → Json
      → Context
      → Bool
      → World
      → ServiceResult Json × World
  unfolding ServiceCall.new
  call_registered none domain service service_data context return_response w =
      (err (not_found domain service), w)
  call_registered (some registered) domain service service_data context return_response w =
      let supports = registered.description.supports_response in
      if return_response && refuses_response supports
      then (err response_not_supported, w)
      else if not return_response && requires_response supports
      then (err response_required, w)
      else respond return_response
          (registered.handler (ServiceCall.new domain service service_data context) w)

  unfoldable pub call :
      ServiceRegistry Json World
      → Text
      → Text
      → Json
      → Context
      → Bool
      → World
      → ServiceResult Json × World
  unfolding call_registered key
  call r domain service service_data context return_response w =
      call_registered (Map.lookup (key domain service) r.services) domain service service_data
        context return_response w

  unfoldable pub has_service : ServiceRegistry Json World → Text → Text → Bool
  unfolding key
  has_service r domain service = Map.contains_key (key domain service) r.services

  abbrev pub description_of :
      Option (RegisteredService Json World) → Option (ServiceDescription Json)
  description_of none = none
  description_of (some registered) = some registered.description

  unfoldable pub get_service :
      ServiceRegistry Json World → Text → Text → Option (ServiceDescription Json)
  unfolding key
  get_service r domain service = description_of (Map.lookup (key domain service) r.services)

  abbrev pub descriptions : Map Text (RegisteredService Json World) → List (ServiceDescription Json)
  descriptions m = map (λ (s : RegisteredService Json World). s.description) (Map.values m)

  unfoldable pub domain_services :
      ServiceRegistry Json World → Text → List (ServiceDescription Json)
  domain_services r domain =
      filter (λ (d : ServiceDescription Json). d.domain == domain) (descriptions r.services)

  unfoldable pub domains : ServiceRegistry Json World → List Text
  unfolding sort dedup
  domains r =
      dedup (sort (map (λ (d : ServiceDescription Json). d.domain) (descriptions r.services)))

  unfoldable pub all_services :
      ServiceRegistry Json World → Map Text (List (ServiceDescription Json))
  unfolding group
  all_services r = group (descriptions r.services) []

  unfoldable pub unregister :
      Text → Text → ServiceRegistry Json World → Bool × ServiceRegistry Json World
  unfolding key
  unregister domain service r = (
    is_some (Map.lookup (key domain service) r.services),
    record { services = Map.remove (key domain service) r.services },
  )

  -- The loop of `unregister_domain`.
  unfoldable pub remove_all :
      List Text → Map Text (RegisteredService Json World) → Map Text (RegisteredService Json World)
  remove_all [] m = m
  remove_all (k ∷ ks) m = remove_all ks (Map.remove k m)

  unfoldable pub keys_to_remove : Text → Map Text (RegisteredService Json World) → List Text
  unfolding key
  keys_to_remove domain m =
      map (λ (d : ServiceDescription Json). key d.domain d.service)
        (filter (λ (d : ServiceDescription Json). d.domain == domain) (descriptions m))

  unfoldable pub unregister_domain :
      Text → ServiceRegistry Json World → ℕ × ServiceRegistry Json World
  unfolding remove_all keys_to_remove
  unregister_domain domain r =
      let ks = keys_to_remove domain r.services in
      (length ks, record { services = remove_all ks r.services })

  unfoldable pub service_count : ServiceRegistry Json World → ℕ
  service_count r = length r.services
