-- ===== src/Samples/BothRuns.antt =====
-- A service registers at the hub of `HubStates`, and connects to another one.
use krossbar_bus.Common.{true, ℕ, ◌≡◌, refl, ◌↔◌, some, List, [], ◌∷◌, Result, ok}
use krossbar_bus.Common.Maps.{get, contains_key, insert}
use krossbar_bus.Protocol.{HubMessage, connect, Error, register}
use krossbar_bus.Hub.Context.{Effect, respond, connection_request, respond_with_fd}
use krossbar_bus.Hub.Sessions
use krossbar_bus.Hub.Sessions.{HubState, new, accepted, polled, Runs, start, then_step}
use krossbar_bus.Hub.Registry.{new-Inv}
use krossbar_bus.Hub.Steps.{Runs-Inv}
use krossbar_bus.Service.Register.{registered, response}
use krossbar_bus.Handshake.{registration_agrees}
use krossbar_bus.Handshake.Meeting.{Knows, peers_meet}
use krossbar_bus.Rpc.{Message, call, fd}
use krossbar_bus.Service.Poll
use krossbar_bus.Service.Poll.{Service, hub_request}
use krossbar_bus.Service.Connect.{returned, dialed, connect_step}
use krossbar_bus.Client.Handles.{Client, asking, answered}
use krossbar_bus.Samples.ClientRuns.{fifo}
use krossbar_bus.Samples.ServiceRuns.{setting, made}
use krossbar_bus.Samples.{codec}
use krossbar_bus.Samples.HubStates.{
  lax, started, service_served, client_came, client_registered, wrote, registers,
}

came : Runs codec started (wrote started (accepted (some (some 7)))) client_came
unfolding Sessions.step
came = then_step lax (accepted (some (some 7))) start refl

registration_agrees_example :
    (r : Result (Unit {0}) Error) × (more : List Effect) × (wrote client_came
        (registers 0 "com.a.client")
      ≡ respond (record { connection = 0; message_id = 1 }) r ∷ more)
    × ((registered 3 (response r) ≡ ok 3)
        ↔ (get "com.a.client" client_registered.context.client_registry ≡ some 0))
unfolding Sessions.step new contains_key
registration_agrees_example =
    registration_agrees codec lax client_came client_registered
      (wrote client_came (registers 0 "com.a.client")) 0 1 3 (some 7) "com.a.client"
      (register "com.a.client") (Runs-Inv codec (new-Inv []) came) refl refl refl

-- The client asks again, now that the service is registered.
abbrev told : Message ℕ
told = record { message_id = 9; endpoint = "connect"; body = fd "com.a.client" 10 }

abbrev asks : HubMessage
asks = connect "com.b" true

peers_meet_example :
    ((h2 : HubState) × (h2.context ≡ service_served.context)
      × (Sessions.step codec lax service_served
            (polled 0 (some (record { message_id = 6; endpoint = "connect"; body = call asks })))
          ≡ some (
            h2,
            connection_request 1 "com.a.client" "com.b" 10
                ∷ respond_with_fd (record { connection = 0; message_id = 6 }) 11
                ∷ [],
          )))
    × Knows "com.a.client" 10 (Poll.poll setting (hub_request told) made).1
    × ((e : Client) × (asker2 : Service fifo ℕ ℕ) × Knows "com.b" 11 asker2
        × (connect_step setting "com.b" true asking (dialed (answered (ok 11))) made
            ≡ some (returned (ok e), asker2)))
unfolding Sessions.step new contains_key get insert Poll.new
peers_meet_example =
    peers_meet codec lax service_served 0 1 6 "com.a.client" "com.b" true asks 10 11 setting made
      made told refl refl refl refl refl refl refl refl refl
