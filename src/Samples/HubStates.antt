-- ===== src/Samples/HubStates.antt =====
-- A history of the hub: a service connects to one that is not there, waits for it, and is connected
-- when it registers.
use krossbar_bus.Common.{text_eq, ℕ, String, true, Option, none, some, List, [], ◌∷◌, ◌≡◌, refl}
use krossbar_bus.Common.Maps.{get, contains_key, insert, remove}
use krossbar_bus.Protocol.{HubMessage, register, connect, hub_register_method, hub_connect_method}
use krossbar_bus.Rpc.{call}
use krossbar_bus.Permissions.{Permissions}
use krossbar_bus.Hub.Context.{Policy, Request, Effect, respond_with_fd, connection_request, Env}
use krossbar_bus.Hub.Sessions.{HubState, new, Event, accepted, polled, woken, step}
use krossbar_bus.Samples.{attempts, codec}

-- Every process may take every name, and everybody may connect to one service, which has a service
-- file.
abbrev pub policy : Permissions → Policy
policy p = record {
  check_service_name_allowed = λ credentials name. some true;
  check_connection_allowed = λ client target. some (text_eq target "com.b");
  check_service_exists = λ target. text_eq target "com.b";
  connection_total = λ client target. (_, refl);
}

abbrev pub lax : Env
lax = record { policy = policy; attempts = attempts }

abbrev pub result : Option (HubState × List Effect) → HubState × List Effect
result none = (new [], [])
result (some r) = r

abbrev pub after : HubState → Event HubMessage → HubState
after h event = (result (step codec lax h event)).0

abbrev pub wrote : HubState → Event HubMessage → List Effect
wrote h event = (result (step codec lax h event)).1

abbrev pub registers : ℕ → String → Event HubMessage
registers c name =
    polled c (
      some (record { message_id = 1; endpoint = hub_register_method; body = call (register name) }))

abbrev pub connects : ℕ → String → Event HubMessage
connects c name = polled c (
    some
      (record { message_id = 2; endpoint = hub_connect_method; body = call (connect name true) }))

abbrev pub started : HubState
started = new []

abbrev pub client_came : HubState
client_came = after started (accepted (some (some 7)))

abbrev pub client_registered : HubState
client_registered = after client_came (registers 0 "com.a.client")

abbrev pub client_served : HubState
client_served = after client_registered (woken 0)

abbrev pub client_waits : HubState
client_waits = after client_served (connects 0 "com.b")

abbrev pub service_came : HubState
service_came = after client_waits (accepted (some (some 8)))

abbrev pub service_registered : HubState
service_registered = after service_came (registers 1 "com.b")

abbrev pub service_served : HubState
service_served = after service_registered (woken 1)

abbrev pub client_request : Request
client_request = record { connection = 0; message_id = 2 }

waiters_are_connected :
    wrote service_registered (woken 1)
    ≡ connection_request 1 "com.a.client" "com.b" 10 ∷ respond_with_fd client_request 11 ∷ []
unfolding step new get contains_key insert remove
waiters_are_connected = refl

nobody_waits_then : get "com.b" service_served.context.pending_connections ≡ none
unfolding step new get contains_key insert remove
nobody_waits_then = refl
