-- ===== src/ServiceRegistry/Calls.antt =====
-- What `call` of crates/ha-service-registry/src/lib.rs answers after services were registered and
-- unregistered.
use homeassistant_rs.Base.{
  ◌≡◌, refl, sym, ap, ◌∙◌, Bool, true, false, ◌&&◌, Option, none, some, arith, ==_iff, ◌==◌,
  list_eq, nat_eq, if◌then◌else◌, Bool-cases, Option-cases, inl, inr, ok, err,
}
use homeassistant_rs.Base.Text.{Text}
use homeassistant_rs.Base.Map
use homeassistant_rs.Base.Map.{lookup-insert, lookup-remove}
use homeassistant_rs.Core.Context.{Context}
use homeassistant_rs.Core.ServiceCall
use homeassistant_rs.Core.ServiceCall.{SupportsResponse, optional, only}
use homeassistant_rs.ServiceRegistry.{
  ServiceError, not_found, response_not_supported, response_required, ServiceResult,
  ServiceDescription, ServiceHandler, RegisteredService, ServiceRegistry, key, respond,
  refuses_response, description_of, register, call_registered, call, has_service, get_service,
  unregister,
}
use homeassistant_rs.ServiceRegistry.Keys.{has_dot, key-injective}

-- Whether a call that does or does not ask for a response is let through to the handler.
abbrev pub refusal : SupportsResponse → Bool → Option ServiceError
refusal SupportsResponse.none true = some response_not_supported
refusal only false = some response_required
refusal _ _ = none

abbrev pub key_beq : Text → Text → Text → Text → Bool
key_beq d s d' s' = d == d' && s == s'

key_beq_lem :
    (d s d' s' : Text)
    → has_dot d ≡ false
    → has_dot d' ≡ false
    → (key d s == key d' s') ≡ key_beq d s d' s'
key_beq_lem d s d' s' h h' = elim (Bool-cases (key d s == key d' s')) [
  | inl t ↦
      let (p, q) = key-injective d s d' s' h h' ((==_iff (key d s) (key d' s')).0 t) in
      ground (arith, ==_iff d d', ==_iff s s')
  | inr t ↦
      let same : d ≡ d' → s ≡ s' → key d s ≡ key d' s' = λ p q. cc in
      ground (arith, ==_iff d d', ==_iff s s', ==_iff (key d s) (key d' s'))
]

-- What a call that asks for a response, or does not, gets of the answer of a handler.
abbrev pub given : {Json : Type 0} → Bool → ServiceResult Json → ServiceResult Json
given ret (err e) = err e
given true (ok response) = ok response
given false (ok response) = ok none

module _ {Json World : Type 0} where
  -- The answer of a service: refused, or what its handler answers.
  abbrev pub answer :
      Option ServiceError
      → ServiceHandler Json World
      → Text
      → Text
      → Json
      → Context
      → Bool
      → World
      → ServiceResult Json × World
  answer (some e) handler domain service payload context return_response w = (err e, w)
  answer none handler domain service payload context return_response w =
      let (result, w') = handler (ServiceCall.new domain service payload context) w in
      (given return_response result, w')

  respond_lem : (ret : Bool) (o : ServiceResult Json × World) → respond ret o ≡ (given ret o.0, o.1)
  respond_lem ret (err e, w) = refl
  respond_lem true (ok r, w) = refl
  respond_lem false (ok r, w) = refl

  call_registered_lem :
      (x : RegisteredService Json World) (d s : Text) (payload : Json) (context : Context)
      (ret : Bool) (w : World)
      → call_registered (some x) d s payload context ret w
        ≡ answer (refusal x.description.supports_response ret) x.handler d s payload context ret w
  unfolding call_registered
  call_registered_lem x d s payload context ret w =
      ground (arith, respond_lem ret (x.handler (ServiceCall.new d s payload context) w))

  -- After a registration, a call of that service is refused as `supports_response` says or is what
  -- the handler answers, its value kept only for a call that asked for it; a call of any other
  -- service is answered as before. Domains have no dot.
  pub call-register :
      (domain service : Text) (handler : ServiceHandler Json World) (schema : Option Json)
      (supports : SupportsResponse) (r : ServiceRegistry Json World) (d s : Text) (payload : Json)
      (context : Context) (ret : Bool) (w : World)
      → has_dot domain ≡ false
      → has_dot d ≡ false
      → call (register domain service handler schema supports r) d s payload context ret w ≡ (
          if key_beq domain service d s
          then answer (refusal supports ret) handler d s payload context ret w
          else call r d s payload context ret w)
  unfolding call register
  call-register domain service handler schema supports r d s payload context ret w h h' =
      let registered : RegisteredService Json World = record {
        handler = handler;
        description = record {
          domain = domain;
          service = service;
          name = none;
          description = none;
          schema = schema;
          target = none;
          supports_response = supports;
        };
      } in
      ap (λ o. call_registered o d s payload context ret w)
        (lookup-insert (key domain service) (key d s) registered r.services)
      ∙ rw (key_beq_lem domain service d s h h') (elim (Bool-cases (key_beq domain service d s)) [
        | inl t ↦ rw t (call_registered_lem registered d s payload context ret w)
        | inr t ↦ rw t refl
      ])

  -- `unregister` says whether the service was there. Afterwards a call of it is not found and does
  -- nothing, and a call of any other service is answered as before. Domains have no dot.
  pub call-unregister :
      (domain service : Text) (r : ServiceRegistry Json World) (d s : Text) (payload : Json)
      (context : Context) (ret : Bool) (w : World)
      → has_dot domain ≡ false
      → has_dot d ≡ false
      → let (removed, t) = unregister domain service r in
        (removed ≡ has_service r domain service)
        × (call t d s payload context ret w ≡ (
            if key_beq domain service d s
            then (err (not_found d s), w)
            else call r d s payload context ret w))
  unfolding call unregister has_service call_registered
  call-unregister domain service r d s payload context ret w h h' = (
    refl,
    ap (λ o. call_registered o d s payload context ret w)
          (lookup-remove (key domain service) (key d s) r.services)
        ∙ rw (key_beq_lem domain service d s h h') (elim (Bool-cases (key_beq domain service d s)) [
          | inl t ↦ rw t refl
          | inr t ↦ rw t refl
        ]),
  )

  respond-some :
      (ret : Bool) (x : ServiceResult Json × World) (v : Json) (w : World)
      → respond ret x ≡ (ok (some v), w)
      → ret ≡ true
  respond-some ret (err e, u) v w h = ground arith
  respond-some true (ok o, u) v w h = refl
  respond-some false (ok o, u) v w h = ground arith

  call_registered-response :
      (o : Option (RegisteredService Json World)) (d s : Text) (payload : Json) (context : Context)
      (ret : Bool) (w w' : World) (v : Json) (x : ServiceDescription Json)
      → call_registered o d s payload context ret w ≡ (ok (some v), w')
      → description_of o ≡ some x
      → (ret ≡ true) × (refuses_response x.supports_response ≡ false)
  unfolding call_registered
  call_registered-response none d s payload context ret w w' v x h p = absurd (ground arith)
  call_registered-response (some y) d s payload context ret w w' v x h p =
      elim (Option-cases (refusal y.description.supports_response ret)) [
        | inl n ↦
            let asked : ret ≡ true =
              respond-some ret (y.handler (ServiceCall.new d s payload context) w) v w' (
                respond_lem ret (y.handler (ServiceCall.new d s payload context) w)
                ∙ sym (call_registered_lem y d s payload context ret w ∙ rw n refl)
                ∙ h) in
            (asked, ground (arith, n, asked, p))
        | inr (e, n) ↦
            let refused : (err e, w) ≡ call_registered (some y) d s payload context ret w =
              sym (call_registered_lem y d s payload context ret w ∙ rw n refl) in
            absurd (ground (arith, refused ∙ h))
      ]

  -- A response is given only to a call that asks for one, by a service that supports it.
  pub call-response :
      (r : ServiceRegistry Json World) (d s : Text) (payload : Json) (context : Context)
      (ret : Bool) (w w' : World) (v : Json) (x : ServiceDescription Json)
      → call r d s payload context ret w ≡ (ok (some v), w')
      → get_service r d s ≡ some x
      → (ret ≡ true) × (refuses_response x.supports_response ≡ false)
  unfolding call get_service
  call-response r d s payload context ret w w' v x h p =
      call_registered-response (Map.lookup (key d s) r.services) d s payload context ret w w' v x h
        p
