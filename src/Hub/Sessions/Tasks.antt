-- ===== src/Hub/Sessions/Tasks.antt =====
-- The task of one client, from authorization (`Hub::authorize`, hub.rs) to its end
-- (`Client::client_loop`, client.rs).
use Prim.Native.String.{◌++◌ as text_append}
use krossbar_bus.Common.{
  ℕ, String, Option, none, some, List, [], ◌∷◌, ◌++◌, if◌then◌else◌, Result, ok, err, and_then,
  text_eq,
}
use krossbar_bus.Protocol.{
  Error, internal_error, HubMessage, register, connect, hub_register_method, hub_connect_method,
}
use krossbar_bus.Rpc.{Body, Message, call}
use krossbar_bus.Hub.Context.{
  Request, Effect, respond, flush, Env, HubContext, handle_connection_request, handle_auth_request,
}

-- The crate `bson`, and the derived `Debug` of a message.
pub record Codec : Type 1 where
  pub Bson : Type 0
  pub from_bson : Bson → Result HubMessage String
  pub debug : HubMessage → String

-- Where the task of a client stands: before its first message (with the process id of the peer, if
-- known), in the sleep of `resolve_pending_connections`, in the loop of `Client::run`, or done, with
-- the name that `Hub::client_name` hands to the main loop.
pub data Phase : Type 0 where
  authorizing : Option ℕ → Phase
  resolving running : String → Phase
  finished : Option String → Phase

-- `none` is a panic.
abbrev pub Outcome : Type 0
Outcome = Option (HubContext × Phase × List Effect)

-- The error that a request to an unexpected endpoint is answered with. The handling goes on.
unfoldable pub check_endpoint : String → String → String → Request → List Effect
check_endpoint expected complaint endpoint request =
    if text_eq endpoint expected then [] else respond request (err (internal_error complaint)) ∷ []

-- Refuses the client, and ends its task.
unfoldable pub refuse : HubContext → List Effect → Request → Error → Outcome
refuse context before request e =
    some (context, finished none, before ++ respond request (err e) ∷ flush request.connection ∷ [])

-- The `match` on what `handle_auth_request` returned.
unfoldable pub on_auth :
    String → List Effect → Request → Result (Unit {0}) Error × HubContext → Outcome
unfolding refuse
on_auth service_name before request (ok u, context) =
    some (context, resolving service_name, before ++ respond request (ok tt) ∷ [])
on_auth service_name before request (err e, context) = refuse context before request e

abbrev pub expected_registration : String → String
expected_registration endpoint =
    text_append "Expected registration call from a client. Got " endpoint

abbrev pub expected_connection : String → String
expected_connection endpoint =
    text_append "Expected only connection messages from a client. Got "
      (text_append endpoint " call")

module _ (codec : Codec) where
  open codec use {Bson, from_bson, debug}

  unfoldable pub authorize_message :
      Env → Option ℕ → HubContext → List Effect → Request → Result HubMessage String → Outcome
  unfolding on_auth handle_auth_request refuse
  authorize_message env credentials context before request (ok (register service_name)) =
      and_then (handle_auth_request env service_name request.connection credentials context)
        (on_auth service_name before request)
  authorize_message env credentials context before request (ok m) =
      refuse context before request
        (internal_error (text_append "Invalid register message body: " (debug m)))
  authorize_message env credentials context before request (err e) =
      refuse context before request (internal_error e)

  unfoldable pub authorize_body :
      Env → Option ℕ → HubContext → List Effect → Request → Body Bson → Outcome
  unfolding authorize_message
  authorize_body env credentials context before request (call bson) =
      authorize_message env credentials context before request (from_bson bson)
  authorize_body env credentials context before request other =
      refuse context before request
        (internal_error "Waiting for a registration message. Received a call")

  -- `Hub::authorize`, up to the sleep of `resolve_pending_connections`.
  unfoldable pub authorize : Env → Option ℕ → ℕ → HubContext → Option (Message Bson) → Outcome
  unfolding authorize_body check_endpoint
  authorize env credentials connection context none = some (context, finished none, [])
  authorize env credentials connection context (some m) =
      let request : Request = record { connection = connection; message_id = m.message_id } in
      authorize_body env credentials context
        (check_endpoint hub_register_method (expected_registration m.endpoint) m.endpoint request)
        request m.body

  unfoldable pub loop_message :
      Env → String → HubContext → List Effect → Request → Result HubMessage String → Outcome
  unfolding handle_connection_request
  loop_message env service_name context before request (ok (connect peer_service_name wait)) =
      and_then (handle_connection_request env service_name peer_service_name request wait context)
        (λ (context', effects). some (context', running service_name, before ++ effects))
  loop_message env service_name context before request (ok m) = some (
    context,
    finished (some service_name),
    before
        ++ respond request
            (err (internal_error (text_append "Invalid connection message body: " (debug m))))
          ∷ [],
  )
  loop_message env service_name context before request (err e) = some (
    context,
    finished (some service_name),
    before ++ respond request (err (internal_error e)) ∷ [],
  )

  unfoldable pub loop_body : Env → String → HubContext → List Effect → Request → Body Bson → Outcome
  unfolding loop_message
  loop_body env service_name context before request (call bson) =
      loop_message env service_name context before request (from_bson bson)
  loop_body env service_name context before request other =
      some (context, finished (some service_name), before)

  -- One round of `Client::client_loop`.
  unfoldable pub client_loop : Env → String → ℕ → HubContext → Option (Message Bson) → Outcome
  unfolding loop_body check_endpoint
  client_loop env service_name connection context none =
      some (context, finished (some service_name), [])
  client_loop env service_name connection context (some m) =
      let request : Request = record { connection = connection; message_id = m.message_id } in
      loop_body env service_name context
        (check_endpoint hub_connect_method (expected_connection m.endpoint) m.endpoint request)
        request m.body
