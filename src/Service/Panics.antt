-- ===== src/Service/Panics.antt =====
-- krossbar-bus-lib/src/service.rs: what `connect_impl` makes of a `poll` that returns.
use krossbar_bus.Common.{ℕ, String, ◌≡◌, refl, Bool, none, some, List, Result, ok, err}
use krossbar_bus.Protocol.{Error}
use krossbar_bus.Rpc.{Message}
use krossbar_bus.Client.Events.{Channel}
use krossbar_bus.Client.Handles.{Dial, polling, received}
use krossbar_bus.Service.Poll.{
  Scheduled, Setting, Service, Event, client, hub_request, hub_lost, take_out, poll, poll_client,
}
use krossbar_bus.Service.Register.{Attempt, hub_connect}
use krossbar_bus.Service.Connect.{polled, connect_step}

-- What may reach a service at any time: a request of the hub, that is, another peer that connects; a
-- message of a peer; the hub, which was gone and has answered again.
pub data Arrives {channel : Channel} {U Bson : Type 0} (s : Service channel U Bson)
    : Event Bson → Type 0 where
  peer_connects : (m : Message Bson) → Arrives s (hub_request m)
  peer_sends :
      {i : ℕ} {f : Scheduled} {rest : List Scheduled} (m : Message Bson)
      → take_out i s.client_poll_handles ≡ some (f, rest)
      → f.phase ≡ polling
      → Arrives s (client i (received m))
  hub_is_back :
      {attempts : List Attempt} {r : Result ℕ Error}
      → hub_connect attempts ≡ some r
      → Arrives s (hub_lost attempts)

-- While a service waits for the connection to a peer, it panics as soon as another peer connects to
-- it, a peer sends it a message, or the hub, after it was gone, answers again.
pub connect_panics :
    {channel : Channel} {U Bson : Type 0} (setting : Setting) (name : String) (wait : Bool)
    (dial : Dial) (s : Service channel U Bson) {event : Event Bson}
    → Arrives s event
    → connect_step setting name wait dial (polled event) s ≡ none
unfolding connect_step poll
connect_panics setting name wait dial s (peer_connects m) = refl
connect_panics setting name wait dial s (peer_sends m e at) = rw (e, poll_client, at)
connect_panics setting name wait dial s (hub_is_back {r = ok rpc} e) = rw e
connect_panics setting name wait dial s (hub_is_back {r = err x} e) = rw e
