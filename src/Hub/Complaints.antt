-- ===== src/Hub/Complaints.antt =====
-- A request on an unexpected endpoint is answered with an error, and then handled all the same.
use krossbar_bus.Common.{
  ℕ, String, ◌≡◌, refl, sym, ap, false, Option, none, some, List, [], ◌∷◌, ◌++◌, append-nil, Result,
  ok, err, and_then, text_eq,
}
use krossbar_bus.Protocol.{
  Error, internal_error, HubMessage, register, connect, hub_register_method, hub_connect_method,
}
use krossbar_bus.Rpc.{Body, Message, call}
use krossbar_bus.Hub.Context.{
  Request, Effect, respond, Env, HubContext, handle_connection_request, handle_auth_request,
}
use krossbar_bus.Hub.Sessions.{
  Codec, running, finished, Outcome, authorize, client_loop, authorize_message, authorize_body,
  loop_message, loop_body, on_auth, check_endpoint, expected_registration, expected_connection,
}

-- The same outcome, with more written before it.
abbrev pub after_writing : List Effect → Outcome → Outcome
after_writing es none = none
after_writing es (some (context, phase, effects)) = some (context, phase, es ++ effects)

on_auth-before :
    (n : String) (before : List Effect) (request : Request)
    (r : Result (Unit {0}) Error × HubContext)
    → on_auth n before request r ≡ after_writing before (on_auth n [] request r)
unfolding on_auth
on_auth-before n before request (ok u, context) = refl
on_auth-before n before request (err e, context) = refl

module _ (codec : Codec) (env : Env) where
  open codec use {Bson}

  authorize_message-before :
      (credentials : Option ℕ) (context : HubContext) (before : List Effect) (request : Request)
      (r : Result HubMessage String)
      → authorize_message codec env credentials context before request r
        ≡ after_writing before (authorize_message codec env credentials context [] request r)
  unfolding authorize_message
  authorize_message-before credentials context before request (err e) = refl
  authorize_message-before credentials context before request (ok (connect t w)) = refl
  authorize_message-before credentials context before request (ok (register n)) =
      go (handle_auth_request env n request.connection credentials context)
    where
      go :
          (o : Option (Result (Unit {0}) Error × HubContext))
          → and_then o (on_auth n before request)
            ≡ after_writing before (and_then o (on_auth n [] request))
      go none = refl
      go (some r) = on_auth-before n before request r

  authorize_body-before :
      (credentials : Option ℕ) (context : HubContext) (before : List Effect) (request : Request)
      (b : Body Bson)
      → authorize_body codec env credentials context before request b
        ≡ after_writing before (authorize_body codec env credentials context [] request b)
  unfolding authorize_body
  authorize_body-before credentials context before request (call bson) =
      authorize_message-before credentials context before request (codec.from_bson bson)
  authorize_body-before credentials context before request other = refl

  -- The first message of a client on an endpoint other than `register` is answered with an error and
  -- then carried out: the client is registered or refused as if the endpoint had been the right one.
  pub authorize_on_wrong_endpoint :
      (credentials : Option ℕ) (c : ℕ) (context : HubContext) (m : Message Bson)
      → text_eq m.endpoint hub_register_method ≡ false
      → authorize codec env credentials c context (some m)
        ≡ after_writing
            (respond
                (record { connection = c; message_id = m.message_id })
                (err (internal_error (expected_registration m.endpoint)))
              ∷ [])
            (authorize codec env credentials c context
              (some (record m { endpoint = hub_register_method })))
  unfolding authorize
  authorize_on_wrong_endpoint credentials c context m wrong =
      rw (wrong, check_endpoint)
        (authorize_body-before credentials context
          (respond (record { connection = c; message_id = m.message_id })
              (err (internal_error (expected_registration m.endpoint)))
            ∷ [])
          (record { connection = c; message_id = m.message_id }) m.body)

  loop_message-before :
      (n : String) (context : HubContext) (before : List Effect) (request : Request)
      (r : Result HubMessage String)
      → loop_message codec env n context before request r
        ≡ after_writing before (loop_message codec env n context [] request r)
  unfolding loop_message
  loop_message-before n context before request (err e) = refl
  loop_message-before n context before request (ok (register t)) = refl
  loop_message-before n context before request (ok (connect t wait)) =
      go (handle_connection_request env n t request wait context)
    where
      go :
          (o : Option (HubContext × List Effect))
          → and_then o (λ (context', effects). some (context', running n, before ++ effects))
            ≡ after_writing before
                (and_then o (λ (context', effects). some (context', running n, effects)))
      go none = refl
      go (some (context', effects)) = refl

  loop_body-before :
      (n : String) (context : HubContext) (before : List Effect) (request : Request) (b : Body Bson)
      → loop_body codec env n context before request b
        ≡ after_writing before (loop_body codec env n context [] request b)
  unfolding loop_body
  loop_body-before n context before request (call bson) =
      loop_message-before n context before request (codec.from_bson bson)
  loop_body-before n context before request other =
      ap (λ es. some (context, finished (some n), es)) (sym (append-nil before))

  -- A request of a registered client on an endpoint other than `connect` is answered with an error and
  -- then carried out: the services are connected as if the endpoint had been the right one.
  pub client_loop_on_wrong_endpoint :
      (n : String) (c : ℕ) (context : HubContext) (m : Message Bson)
      → text_eq m.endpoint hub_connect_method ≡ false
      → client_loop codec env n c context (some m)
        ≡ after_writing
            (respond
                (record { connection = c; message_id = m.message_id })
                (err (internal_error (expected_connection m.endpoint)))
              ∷ [])
            (client_loop codec env n c context (some (record m { endpoint = hub_connect_method })))
  unfolding client_loop
  client_loop_on_wrong_endpoint n c context m wrong =
      rw (wrong, check_endpoint)
        (loop_body-before n context
          (respond (record { connection = c; message_id = m.message_id })
              (err (internal_error (expected_connection m.endpoint)))
            ∷ [])
          (record { connection = c; message_id = m.message_id }) m.body)
