-- ===== src/Handshake.antt =====
-- The registration of a service at the hub, on both sides: krossbar-bus-lib/src/service.rs and
-- krossbar-hub/src/hub.rs.
pub mod Meeting
use krossbar_bus.Common.{
  ℕ, String, ◌≡◌, refl, subst, ◌↔◌, Bool, true, false, Option, none, some, List, [], ◌∷◌, Result,
  ok, err, inl, inr, Bool-cases, arith, eq_refl, and_then,
}
use krossbar_bus.Common.Maps.{get, contains_key, get-insert}
use krossbar_bus.Protocol.{Error, register, hub_register_method}
use krossbar_bus.Rpc.{call}
use krossbar_bus.Hub.Context.{Request, Effect, respond, Env, HubContext, handle_auth_request, admit}
use krossbar_bus.Hub.Sessions.{
  Codec, authorizing, HubState, polled, step, poll, settle, authorize, authorize_body,
  authorize_message, on_auth, check_endpoint,
}
use krossbar_bus.Hub.Registry.{Holds, Inv}
use krossbar_bus.Service.Register.{registered, response}

-- The service takes the answer for a registration exactly if the name is registered for the connection.
abbrev Agrees : ℕ → String → ℕ → Result (Unit {0}) Error → HubContext → Type 0
Agrees rpc name c r context =
    (registered rpc (response r) ≡ ok rpc) ↔ (get name context.client_registry ≡ some c)

admit-Agrees :
    (rpc : ℕ) (name : String) (c : ℕ) (context : HubContext) (allowed : Bool)
    → (get name context.client_registry ≡ some c → ⊥)
    → let (r, context') = admit name c context allowed in Agrees rpc name c r context'
unfolding admit registered
admit-Agrees rpc name c context true other =
    (λ e. ground (arith, get-insert name name c context.client_registry, eq_refl name), λ e. refl)
admit-Agrees rpc name c context false other = (λ e. cc, λ e. absurd (other e))

abbrev AgreesAfter : ℕ → String → ℕ → Option (Result (Unit {0}) Error × HubContext) → Type 0
AgreesAfter rpc name c none = Unit {0}
AgreesAfter rpc name c (some (r, context)) = Agrees rpc name c r context

handle_auth_request-AgreesAfter :
    (env : Env) (rpc : ℕ) (name : String) (c : ℕ) (credentials : Option ℕ) (context : HubContext)
    → (get name context.client_registry ≡ some c → ⊥)
    → AgreesAfter rpc name c (handle_auth_request env name c credentials context)
unfolding handle_auth_request registered
handle_auth_request-AgreesAfter env rpc name c credentials context other =
    elim (Bool-cases (contains_key name context.client_registry)) [
      | inl e ↦ rw e (λ q. cc, λ q. absurd (other q))
      | inr e ↦
          rw e (go ((env.policy context.permissions).check_service_name_allowed credentials name))
    ]
  where
    go :
        (allowed : Option Bool)
        → AgreesAfter rpc name c (and_then allowed (λ a. some (admit name c context a)))
    go none = tt
    go (some a) = admit-Agrees rpc name c context a other

-- The hub answers the request, first of all, as the registry says then.
abbrev Truly : ℕ → String → Request → Option (HubState × List Effect) → Type 0
Truly rpc name request none = Unit {0}
Truly rpc name request (some (h, effects)) =
    (r : Result (Unit {0}) Error) × (more : List Effect) × (effects ≡ respond request r ∷ more)
    × Agrees rpc name request.connection r h.context

settle-Truly :
    (h : HubState) (rpc : ℕ) (name : String) (request : Request)
    (o : Option (Result (Unit {0}) Error × HubContext))
    → AgreesAfter rpc name request.connection o
    → Truly rpc name request (settle h request.connection (and_then o (on_auth name [] request)))
unfolding settle on_auth
settle-Truly h rpc name request none a = tt
settle-Truly h rpc name request (some (ok u, context)) a = (ok u, _, refl, a)
settle-Truly h rpc name request (some (err e, context)) a = (err e, _, refl, a)

module _ (codec : Codec) where
  open codec use {Bson, from_bson}

  -- A service and the hub agree on whether the service is registered. If the hub, in a state in which
  -- the registry and the tasks agree, handles the registration call of a service on a new connection
  -- and does not panic, then it first of all answers that call; and the service, which reads the answer
  -- as the first thing on the stream, takes the stream for its connection exactly if the name is
  -- registered for that connection then.
  pub registration_agrees :
      (env : Env) (h h' : HubState) (effects : List Effect) (c id rpc : ℕ) (credentials : Option ℕ)
      (name : String) (b : Bson)
      → Inv h
      → h.tasks c ≡ some (authorizing credentials)
      → from_bson b ≡ ok (register name)
      → step codec env h (
          polled c
            (some (record { message_id = id; endpoint = hub_register_method; body = call b })))
        ≡ some (h', effects)
      → (r : Result (Unit {0}) Error) × (more : List Effect) × (effects
          ≡ respond (record { connection = c; message_id = id }) r ∷ more)
        × ((registered rpc (response r) ≡ ok rpc) ↔ (get name h'.context.client_registry ≡ some c))
  unfolding step poll authorize authorize_body authorize_message check_endpoint
  registration_agrees env h h' effects c id rpc credentials name b v at decoded e =
      let free : get name h.context.client_registry ≡ some c → ⊥ =
        λ q. subst (λ x. Holds x name) at (v.held name c q) in
      let request : Request = record { connection = c; message_id = id } in
      subst (Truly rpc name request) (rw (at, decoded) at e) (
        settle-Truly h rpc name request _
          (handle_auth_request-AgreesAfter env rpc name c credentials h.context free))
