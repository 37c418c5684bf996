-- ===== src/Hub/Context.antt =====
-- krossbar-hub/src/client.rs and the shared state of hub.rs: `HubContext`, and how connection
-- requests are answered, queued and resolved.
use krossbar_bus.Common.{
  ℕ, suc, String, Bool, true, false, Option, none, some, List, [], ◌∷◌, ◌++◌, if◌then◌else◌, Result,
  ok, err, ◌≡◌, and_then,
}
use krossbar_bus.Common.Maps.{Map, get, contains_key, insert, remove}
use krossbar_bus.Protocol.{
  Error, internal_error, already_registered, not_allowed, service_not_found, peer_disconnected,
}
use krossbar_bus.Permissions.{Permissions}

-- `RpcRequest`, after its body was taken: where its answer goes.
pub record Request : Type 0 where
  pub connection : ℕ
  pub message_id : ℕ

-- What the hub writes. A response carries `Ok(())` or an error, and `respond_with_fd` hands over one
-- end of a socket pair with `Ok(())`; `connection_request` hands the other end to the target.
pub data Effect : Type 0 where
  respond : Request → Result (Unit {0}) Error → Effect
  respond_with_fd : Request → ℕ → Effect
  connection_request : ℕ → String → String → ℕ → Effect
  flush : ℕ → Effect

-- How the machine answers one attempt to connect two services: `UnixStream::pair`, and whether the
-- write of the connection request to the target fails.
pub record Attempt : Type 0 where
  pub pair : Result (ℕ × ℕ) String
  pub write_fails : Bool

-- What the hub asks of its permissions, at one moment. `none` is a panic. The law is what the hub
-- relies on; `Policies` fills the interface from the service files.
pub record Policy : Type 0 where
  pub check_service_name_allowed : Option ℕ → String → Option Bool
  pub check_connection_allowed : String → String → Option Bool
  pub check_service_exists : String → Bool
  pub connection_total : (c t : String) → (b : Bool) × (check_connection_allowed c t ≡ some b)

-- The machine during one step of the hub.
pub record Env : Type 0 where
  pub policy : Permissions → Policy
  pub attempts : ℕ → Attempt

pub record HubContext : Type 0 where
  pub client_registry : Map ℕ
  pub pending_connections : Map (List (String × Request))
  pub permissions : Permissions

-- `Client::send_connection_descriptors`
unfoldable pub send_connection_descriptors : Attempt → String → Request → String → ℕ → List Effect
send_connection_descriptors attempt initiator request target_service target_writer =
    elim attempt.pair [
      | ok (socket1, socket2) ↦
          if attempt.write_fails
          then respond request (err peer_disconnected) ∷ []
          else connection_request target_writer initiator target_service socket1
            ∷ respond_with_fd request socket2
            ∷ []
      | err e ↦ respond request (err (internal_error e)) ∷ []
    ]

-- The loop of `Client::resolve_pending_connections` over the waiters.
unfoldable pub send_all : (ℕ → Attempt) → List (String × Request) → String → ℕ → List Effect
send_all attempts [] service_name stream = []
send_all attempts ((initiator, request) ∷ waiters) service_name stream =
    send_connection_descriptors (attempts 0) initiator request service_name stream
    ++ send_all (λ k. attempts (suc k)) waiters service_name stream

unfoldable pub waiters_of : Option (List (String × Request)) → List (String × Request)
waiters_of none = []
waiters_of (some waiters) = waiters

-- `Client::resolve_pending_connections`, after its sleep.
unfoldable pub resolve_pending_connections :
    Env → String → ℕ → HubContext → HubContext × List Effect
unfolding send_all waiters_of
resolve_pending_connections env service_name stream context = (
  record context { pending_connections = remove service_name context.pending_connections },
  send_all env.attempts (waiters_of (get service_name context.pending_connections)) service_name
      stream,
)

-- `pending_connections.entry(target_service).or_default().push(..)`
unfoldable pub push_waiter : String → String → Request → HubContext → HubContext
unfolding waiters_of
push_waiter target_service service_name request context = record context {
  pending_connections =
      insert target_service
        (waiters_of (get target_service context.pending_connections)
          ++ (service_name, request) ∷ [])
        context.pending_connections;
}

-- The target is not registered.
unfoldable pub wait_or_refuse :
    Policy → String → String → Request → Bool → HubContext → HubContext × List Effect
unfolding push_waiter
wait_or_refuse policy service_name target_service request add_pending context =
    if add_pending
    then (if policy.check_service_exists target_service
        then (push_waiter target_service service_name request context, [])
        else (context, respond request (err service_not_found) ∷ []))
    else (context, respond request (err service_not_found) ∷ [])

unfoldable pub connect_or_wait :
    Env → String → String → Request → Bool → HubContext → HubContext × List Effect
unfolding send_connection_descriptors wait_or_refuse
connect_or_wait env service_name target_service request add_pending context =
    elim (get target_service context.client_registry) [
      | some target_writer ↦ (
        context,
        send_connection_descriptors (env.attempts 0) service_name request target_service
            target_writer,
      )
      | none ↦
          wait_or_refuse (env.policy context.permissions) service_name target_service request
            add_pending context
    ]

-- The branch on what `check_connection_allowed` answered.
unfoldable pub on_allowed :
    Env → String → String → Request → Bool → HubContext → Bool → HubContext × List Effect
unfolding connect_or_wait
on_allowed env service_name target_service request add_pending context false =
    (context, respond request (err not_allowed) ∷ [])
on_allowed env service_name target_service request add_pending context true =
    connect_or_wait env service_name target_service request add_pending context

-- `Client::handle_connection_request`; `none` is a panic.
unfoldable pub handle_connection_request :
    Env → String → String → Request → Bool → HubContext → Option (HubContext × List Effect)
unfolding on_allowed
handle_connection_request env service_name target_service request add_pending context =
    and_then ((env.policy context.permissions).check_connection_allowed service_name target_service)
      (λ allowed.
        some (on_allowed env service_name target_service request add_pending context allowed))

-- The branch on what `check_service_name_allowed` answered.
unfoldable pub admit : String → ℕ → HubContext → Bool → Result (Unit {0}) Error × HubContext
admit service_name writer context false = (err not_allowed, context)
admit service_name writer context true =
    (ok tt, record context { client_registry = insert service_name writer context.client_registry })

-- `Hub::handle_auth_request`; `none` is a panic.
unfoldable pub handle_auth_request :
    Env → String → ℕ → Option ℕ → HubContext → Option (Result (Unit {0}) Error × HubContext)
unfolding admit
handle_auth_request env service_name writer credentials context =
    if contains_key service_name context.client_registry
    then some (err already_registered, context)
    else and_then
        ((env.policy context.permissions).check_service_name_allowed credentials service_name)
        (λ allowed. some (admit service_name writer context allowed))
