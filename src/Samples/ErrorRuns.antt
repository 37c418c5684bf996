-- ===== src/Samples/ErrorRuns.antt =====
-- The theorems on panics and on complaints of the hub, applied to states of `HubStates`.
use krossbar_bus.Common.{true, none, some, [], ◌∷◌, ◌≡◌, refl, err}
use krossbar_bus.Common.Maps.{get, contains_key, insert, remove}
use krossbar_bus.Protocol.{
  register, connect, hub_register_method, hub_connect_method, internal_error,
}
use krossbar_bus.Rpc.{call}
use krossbar_bus.Hub.Context.{
  on_allowed, connect_or_wait, wait_or_refuse, push_waiter, send_all, send_connection_descriptors,
  handle_auth_request, admit, respond, handle_connection_request, resolve_pending_connections,
  waiters_of,
}
use krossbar_bus.Hub.Sessions.{
  poll, wake, accept, settle, set_task, authorize_body, authorize_message, on_auth, check_endpoint,
  loop_body, loop_message, HubState, new, accepted, step, authorize, client_loop,
  expected_registration, expected_connection,
}
use krossbar_bus.Hub.Policies.{env_of}
use krossbar_bus.Hub.Crashes.{Returns, hub_never_panics, hub_panics_on_link}
use krossbar_bus.Hub.Complaints.{
  after_writing, authorize_on_wrong_endpoint, client_loop_on_wrong_endpoint,
}
use krossbar_bus.Samples.{machine, all_text, link_of, attempts, codec, in_order_visits}
use krossbar_bus.Samples.HubStates.{lax, after, registers, started, client_came, client_served}

bad_name_is_survived : Returns (
    step codec
      (env_of (machine all_text) in_order_visits attempts)
      client_came
      (registers 0 "com..a"))
bad_name_is_survived =
    hub_never_panics codec (machine all_text) in_order_visits attempts client_came
      (registers 0 "com..a") (λ pid e. cc)

abbrev odd_process_came : HubState
odd_process_came = after started (accepted (some (some 9)))

hub_panics_on_link_example :
    step codec
      (env_of (machine link_of) in_order_visits attempts)
      odd_process_came
      (registers 0 "com.a")
    ≡ none
unfolding step poll wake accept settle set_task authorize authorize_body authorize_message on_auth
    handle_auth_request admit check_endpoint client_loop loop_body loop_message
    handle_connection_request on_allowed connect_or_wait wait_or_refuse push_waiter
    resolve_pending_connections send_all send_connection_descriptors waiters_of get contains_key
    insert remove new
hub_panics_on_link_example =
    hub_panics_on_link codec (machine link_of) in_order_visits attempts odd_process_came 0 9
      (record { message_id = 1; endpoint = hub_register_method; body = call (register "com.a") })
      (register "com.a") "com.a" refl refl refl refl refl

authorize_on_wrong_endpoint_example :
    authorize codec lax
      (some 7)
      0
      started.context
      (some (record { message_id = 1; endpoint = "hello"; body = call (register "com.a") }))
    ≡ after_writing
        (respond
            (record { connection = 0; message_id = 1 })
            (err (internal_error (expected_registration "hello")))
          ∷ [])
        (authorize codec lax (some 7) 0 started.context (
          some (record {
            message_id = 1;
            endpoint = hub_register_method;
            body = call (register "com.a");
          })))
authorize_on_wrong_endpoint_example =
    authorize_on_wrong_endpoint codec lax (some 7) 0 started.context
      (record { message_id = 1; endpoint = "hello"; body = call (register "com.a") }) refl

misplaced_request_is_handled :
    client_loop codec lax "com.a.client" 0 client_served.context
      (some (record { message_id = 2; endpoint = "hello"; body = call (connect "com.b" true) }))
    ≡ after_writing
        (respond
            (record { connection = 0; message_id = 2 })
            (err (internal_error (expected_connection "hello")))
          ∷ [])
        (client_loop codec lax "com.a.client" 0 client_served.context (
          some (record {
            message_id = 2;
            endpoint = hub_connect_method;
            body = call (connect "com.b" true);
          })))
misplaced_request_is_handled =
    client_loop_on_wrong_endpoint codec lax "com.a.client" 0 client_served.context
      (record { message_id = 2; endpoint = "hello"; body = call (connect "com.b" true) }) refl
