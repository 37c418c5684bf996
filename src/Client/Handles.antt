-- ===== src/Client/Handles.antt =====
-- krossbar-bus-lib/src/client.rs: `Client`, and `ClientHandle`, whose future `poll` looks after one
-- connection, in the steps that it takes between two awaits.
use Prim.Native.String.{◌++◌ as text_append}
use krossbar_bus.Common.{ℕ, String, Bool, true, Option, none, some, Result, ok, err, if◌then◌else◌}
use krossbar_bus.Protocol.{Error, peer_disconnected}
use krossbar_bus.Rpc.{Message}
use krossbar_bus.Endpoints.World.{update}
use krossbar_bus.Client.Events
use krossbar_bus.Client.Events.{Notice, Channel, Store, emit, wait}

-- `hub_reconnect_event` and `outgoing` are addresses.
pub record Client : Type 0 where
  pub service_name : String
  pub writer : ℕ
  pub hub_reconnect_event : ℕ
  pub outgoing : ℕ

pub record ClientHandle : Type 0 where
  pub service_name : String
  pub rpc : ℕ
  pub hub_connection : ℕ
  pub hub_reconnect_event : ℕ
  pub outgoing : ℕ
  pub self_reconnect_event : ℕ
  pub wait_connect : Bool

pub data ClientEvent (Bson : Type 0) : Type 0 where
  message : String → Message Bson → ClientEvent Bson
  disconnect : String → ClientEvent Bson

-- Where the loop of `ClientHandle::hub_connect` stands: it has called the hub, or the call failed and
-- it waits for the reconnection of the hub.
pub data Dial : Type 0 where
  asking waiting : Dial

-- The answer of the hub (with the stream), the failure of the call, or a notice that is there.
pub data DialEvent : Type 0 where
  answered : Result ℕ Error → DialEvent
  unreachable notified : DialEvent

pub data DialResult : Type 0 where
  still : Dial → DialResult
  got : Result ℕ Error → DialResult

-- Where the future of `ClientHandle::poll` stands: at `rpc.poll()`, or in `hub_connect`.
pub data Phase : Type 0 where
  polling : Phase
  dialing : Dial → Phase

-- What the connection hands over: a message or its end; or an event of `hub_connect`.
pub data LinkEvent (Bson : Type 0) : Type 0 where
  received : Message Bson → LinkEvent Bson
  lost : LinkEvent Bson
  dialed : DialEvent → LinkEvent Bson

-- What the future does at one event: it goes on from another phase, or it is ready.
pub data Polled (Bson : Type 0) : Type 0 where
  pending : Phase → Polled Bson
  ready : ClientEvent Bson → Polled Bson

-- `Client::new`
abbrev pub new_client : String → ℕ → ℕ → ℕ → Client
new_client service_name writer hub_reconnect_event outgoing = record {
  service_name = service_name;
  writer = writer;
  hub_reconnect_event = hub_reconnect_event;
  outgoing = outgoing;
}

-- `Debug` of a `Client`
unfoldable pub print_client : Client → String
print_client c = text_append "Client: " c.service_name

-- `ClientHandle::client_handle`
unfoldable pub client_handle : ClientHandle → Client
client_handle h = new_client h.service_name h.rpc h.self_reconnect_event h.outgoing

module _ (channel : Channel) where
  -- `Client::make_outgoing`
  unfoldable pub make_outgoing : Client → Store channel → Store channel
  unfolding update
  make_outgoing c store = record store { flags = update c.outgoing true store.flags }

  -- The handle of a connection that is there: `ClientHandle::new` with false, and the end of
  -- `ClientHandle::connect` with true.
  unfoldable pub new_handle :
      Bool → String → ℕ → ℕ → ℕ → Bool → Store channel → ClientHandle × Store channel
  unfolding Events.new update
  new_handle out service_name rpc hub_connection hub_reconnect_event wait_connect store =
      let (event, store2) = Events.new channel store in
      (
        record {
          service_name = service_name;
          rpc = rpc;
          hub_connection = hub_connection;
          hub_reconnect_event = hub_reconnect_event;
          outgoing = event;
          self_reconnect_event = event;
          wait_connect = wait_connect;
        },
        record store2 { flags = update event out store2.flags },
      )

  -- The notice that `hub_connect` waited for.
  unfoldable pub on_notice :
      Store channel → Option (Notice × Store channel) → DialResult × Store channel
  on_notice store none = (still waiting, store)
  on_notice store (some (ok u, store2)) = (still asking, store2)
  on_notice store (some (err e, store2)) = (got (err e), store2)

  -- `ClientHandle::hub_connect`, one step of its loop.
  unfoldable pub hub_connect : ℕ → Dial → DialEvent → Store channel → DialResult × Store channel
  unfolding on_notice wait
  hub_connect hub_reconnect_event asking (answered r) store = (got r, store)
  hub_connect hub_reconnect_event asking unreachable store = (still waiting, store)
  hub_connect hub_reconnect_event asking notified store = (still asking, store)
  hub_connect hub_reconnect_event waiting notified store =
      on_notice store (wait channel hub_reconnect_event store)
  hub_connect hub_reconnect_event waiting other store = (still waiting, store)

  module _ {Bson : Type 0} where
    -- The connection is given up.
    unfoldable pub give_up : ClientHandle → Store channel → Polled Bson × Store channel
    unfolding emit
    give_up h store = (
      ready (disconnect h.service_name),
      emit channel h.self_reconnect_event (err peer_disconnected) store,
    )

    -- `on_reconnected` lets the handle and its clients use the new stream under the old names.
    unfoldable pub on_dialed :
        ClientHandle → DialResult × Store channel → Polled Bson × Store channel
    unfolding give_up emit
    on_dialed h (still dial, store) = (pending (dialing dial), store)
    on_dialed h (got (ok stream), store) =
        (pending polling, emit channel h.self_reconnect_event (ok tt) store)
    on_dialed h (got (err e), store) = give_up h store

    -- `ClientHandle::poll`
    unfoldable pub poll :
        ClientHandle → Phase → LinkEvent Bson → Store channel → Polled Bson × Store channel
    unfolding on_dialed hub_connect give_up
    poll h polling (received m) store = (ready (message h.service_name m), store)
    poll h polling lost store =
        if store.flags h.outgoing then (pending (dialing asking), store) else give_up h store
    poll h polling (dialed e) store = (pending polling, store)
    poll h (dialing dial) (dialed e) store =
        on_dialed h (hub_connect h.hub_reconnect_event dial e store)
    poll h (dialing dial) other store = (pending (dialing dial), store)
