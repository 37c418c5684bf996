-- ===== src/Hub/Interleaved/Outcomes.antt =====
-- krossbar-hub/src/hub.rs and client.rs: what a message makes a task write, by how it takes the lock.
use krossbar_bus.Common.{
  ℕ, String, ◌≡◌, refl, Bool, true, false, Option, none, some, List, [], ◌∷◌, ◌++◌, Result, ok, err,
  and_then, ap, ◌∙◌, inl, inr, Bool-cases, Option-cases,
}
use krossbar_bus.Common.Maps.{get}
use krossbar_bus.Protocol.{Error, HubMessage, register, connect}
use krossbar_bus.Rpc.{Body, Message, message, call, subscription, response, fd}
use krossbar_bus.Hub.Context.{
  Request, Effect, respond, flush, connection_request, respond_with_fd, Env, HubContext,
  handle_connection_request, on_allowed, connect_or_wait, wait_or_refuse, push_waiter, Policy,
  handle_auth_request,
}
use krossbar_bus.Hub.Sessions.{
  Codec, Phase, authorizing, resolving, running, finished, Outcome, authorize_message,
  authorize_body, loop_message, loop_body, refuse, on_auth,
}
use krossbar_bus.Hub.Access.{Sent, Approved, Rightful, handle_connection_request-Safe}
use krossbar_bus.Hub.Pool.{
  Access, unlocked, brief, kept, request_of, register_access, connect_access,
}
use krossbar_bus.Hub.Interleaved.{access, handle}

-- A connection request is for the connection that the target is registered for.
abbrev pub Registered : HubContext → ℕ → String → String → Type 0
Registered context w i t = get t context.client_registry ≡ some w

-- No connection request.
abbrev pub Nowhere : ℕ → String → String → Type 0
Nowhere w i t = ⊥

abbrev Anyone : String → String → Type 0
Anyone i t = Unit {0}

pub map-Sent :
    (P Q : ℕ → String → String → Type 0)
    → ((w : ℕ) (i t : String) → P w i t → Q w i t)
    → (es : List Effect) → Sent P es
    → Sent Q es
map-Sent P Q f [] s = tt
map-Sent P Q f (connection_request w i t x ∷ es) s = (f w i t s.0, map-Sent P Q f es s.1)
map-Sent P Q f (respond r result ∷ es) s = map-Sent P Q f es s
map-Sent P Q f (respond_with_fd r x ∷ es) s = map-Sent P Q f es s
map-Sent P Q f (flush c ∷ es) s = map-Sent P Q f es s

pub all-Approved : (t : String) (ws : List (String × Request)) → Approved Anyone t ws
all-Approved t [] = tt
all-Approved t ((i, r) ∷ ws) = (tt, all-Approved t ws)

-- Without the lock nothing is changed, and without keeping it no service is written to; while it is
-- kept, the services written to are those that are registered.
abbrev pub IsGuarded : Access → HubContext → Outcome → Type 0
IsGuarded a context none = Unit {0}
IsGuarded unlocked context (some (context', phase, es)) = (context' ≡ context) × Sent Nowhere es
IsGuarded brief context (some (context', phase, es)) = Sent Nowhere es
IsGuarded kept context (some (context', phase, es)) = Sent (Registered context') es

-- The registry stays as it is.
abbrev SameRegistry : HubContext → Option (HubContext × List Effect) → Type 0
SameRegistry context none = Unit {0}
SameRegistry context (some (context', es)) = context'.client_registry ≡ context.client_registry

module _ (env : Env) (i t : String) (r : Request) (wait : Bool) (context : HubContext) where
  wait_or_refuse-SameRegistry :
      (policy : Policy) → SameRegistry context (some (wait_or_refuse policy i t r wait context))
  unfolding wait_or_refuse push_waiter
  wait_or_refuse-SameRegistry policy = elim (Bool-cases wait) [
    | inr e ↦ rw e refl
    | inl e ↦ elim (Bool-cases (policy.check_service_exists t)) [
      | inl q ↦ rw (e, q) refl
      | inr q ↦ rw (e, q) refl
    ]
  ]

  connect_or_wait-SameRegistry :
      SameRegistry context (some (connect_or_wait env i t r wait context))
  unfolding connect_or_wait
  connect_or_wait-SameRegistry = elim (Option-cases (get t context.client_registry)) [
    | inl e ↦ rw (e, connect_or_wait) (wait_or_refuse-SameRegistry (env.policy context.permissions))
    | inr (w, e) ↦ rw (e, connect_or_wait) refl
  ]

  handle_connection_request-SameRegistry :
      SameRegistry context (handle_connection_request env i t r wait context)
  unfolding handle_connection_request
  handle_connection_request-SameRegistry =
      go ((env.policy context.permissions).check_connection_allowed i t)
    where
      go :
          (o : Option Bool)
          → SameRegistry context
              (and_then o (λ allowed. some (on_allowed env i t r wait context allowed)))
      go none = tt
      go (some false) = unfold on_allowed in refl
      go (some true) = unfold on_allowed in connect_or_wait-SameRegistry

  handle_connection_request-IsGuarded :
      (name : String)
      → IsGuarded kept context (
          and_then
            (handle_connection_request env i t r wait context)
            (λ (context', es). some (context', running name, [] ++ es)))
  handle_connection_request-IsGuarded name =
      go (handle_connection_request env i t r wait context) refl
        handle_connection_request-SameRegistry
    where
      go :
          (o : Option (HubContext × List Effect))
          → handle_connection_request env i t r wait context ≡ o
          → SameRegistry context o
          → IsGuarded kept context
              (and_then o (λ (context', es). some (context', running name, [] ++ es)))
      go none e same = tt
      go (some (context', es)) e same =
          let safe =
            handle_connection_request-Safe Anyone context (λ u. all-Approved u _) env i t r wait
              (context', es) (λ policy j u allowed. tt) e in
          map-Sent (Rightful Anyone context) (Registered context')
            (λ w j u q. ap (get u) same ∙ q.1) es safe.1

module _ (codec : Codec) (env : Env) (context : HubContext) (r : Request) where
  open codec use {Bson}

  authorize_message-IsGuarded :
      (credentials : Option ℕ) (m : Result HubMessage String)
      → IsGuarded
          (register_access m)
          context
          (authorize_message codec env credentials context [] r m)
  unfolding register_access authorize_message refuse on_auth
  authorize_message-IsGuarded credentials (err e) = (refl, tt)
  authorize_message-IsGuarded credentials (ok (connect t wait)) = (refl, tt)
  authorize_message-IsGuarded credentials (ok (register n)) =
      go (handle_auth_request env n r.connection credentials context)
    where
      go :
          (o : Option (Result (Unit {0}) Error × HubContext))
          → IsGuarded brief context (and_then o (on_auth n [] r))
      go none = tt
      go (some (ok u, context')) = tt
      go (some (err e, context')) = tt

  loop_message-IsGuarded :
      (n : String) (m : Result HubMessage String)
      → IsGuarded (connect_access m) context (loop_message codec env n context [] r m)
  unfolding connect_access loop_message
  loop_message-IsGuarded n (err e) = (refl, tt)
  loop_message-IsGuarded n (ok (register t)) = (refl, tt)
  loop_message-IsGuarded n (ok (connect t wait)) =
      handle_connection_request-IsGuarded env n t r wait context n

module _ (codec : Codec) (env : Env) (c : ℕ) (context : HubContext) where
  open codec use {Bson}

  -- A message that is handled with the lock, or without, as the code does.
  pub handle-IsGuarded :
      (phase : Phase) (m : Message Bson)
      → IsGuarded (access codec phase m.body) context (handle codec env c phase m context)
  unfolding access handle authorize_body loop_body refuse
  handle-IsGuarded phase m = go phase m.body
    where
      go :
          (phase : Phase) (b : Body Bson)
          → IsGuarded
              (access codec phase b)
              context
              (handle codec env c phase (record m { body = b }) context)
      go (authorizing credentials) (call bson) =
          authorize_message-IsGuarded codec env context (request_of c m) credentials
            (codec.from_bson bson)
      go (authorizing credentials) (message b) = (refl, tt)
      go (authorizing credentials) subscription = (refl, tt)
      go (authorizing credentials) response = (refl, tt)
      go (authorizing credentials) (fd n x) = (refl, tt)
      go (running n) (call bson) =
          loop_message-IsGuarded codec env context (request_of c m) n (codec.from_bson bson)
      go (running n) (message b) = (refl, tt)
      go (running n) subscription = (refl, tt)
      go (running n) response = (refl, tt)
      go (running n) (fd k x) = (refl, tt)
      go (resolving n) b = (refl, tt)
      go (finished n) b = (refl, tt)
