-- ===== src/Service/Poll.antt =====
-- krossbar-bus-lib/src/service.rs: the state of a service, and its main loop.
use krossbar_bus.Common.{
  ℕ, zero, suc, String, Bool, false, ◌&&◌, Option, none, some, List, [], ◌∷◌, Result, ok, err,
  if◌then◌else◌, text_eq,
}
use krossbar_bus.Common.Maps.{Map, contains_key, insert, remove}
use krossbar_bus.Protocol.{Error, monitor_service_name}
use krossbar_bus.Rpc.{Message, Body, fd}
use krossbar_bus.Endpoints.World.{Subscriber, World}
use krossbar_bus.Endpoints.Calls.{Endpoints, handle_call}
use krossbar_bus.Client.Events
use krossbar_bus.Client.Events.{Channel, Store, Notice, emit}
use krossbar_bus.Client.Handles
use krossbar_bus.Client.Handles.{
  Client, ClientHandle, ClientEvent, message, disconnect, Phase, polling, LinkEvent, Polled,
  pending, ready, client_handle, new_handle,
}
use krossbar_bus.Service.Register.{Attempt}
use krossbar_bus.Service.Register

-- A future that `schedule_client_poll` has made.
pub record Scheduled : Type 0 where
  pub handle : ClientHandle
  pub phase : Phase

-- The cargo features, and which subscribers take a response, at one moment.
pub record Setting : Type 0 where
  pub inspection : Bool
  pub monitor : Bool
  pub takes : Subscriber → Bool

module _ (channel : Channel) where
  -- `Service`, with what it shares with its clients (`store`), its endpoints (`world`), and the stream
  -- that `Monitor::set` got. `FuturesUnordered` keeps no order.
  pub record Service (U Bson : Type 0) : Type 0 where
    pub service_name : String
    pub endpoints : Endpoints U Bson
    pub client_map : Map Client
    pub client_poll_handles : List Scheduled
    pub hub_connection : ℕ
    pub reconnect_signal : ℕ
    pub store : Store channel
    pub world : World U Bson
    pub monitor_stream : Option ℕ

-- What `poll` reacts to: an event of one of the futures, a request of the hub, the end of the
-- connection to the hub (with the attempts to connect again), or ctrl-c.
pub data Event (Bson : Type 0) : Type 0 where
  client : ℕ → LinkEvent Bson → Event Bson
  hub_request : Message Bson → Event Bson
  hub_lost : List Attempt → Event Bson
  interrupted : Event Bson

-- `none` is to poll on, `some` is what `poll` returns.
abbrev pub Outcome : Type 0 → Type 0
Outcome S = Option (Result (Unit {0}) Error) × S

-- The `?` of `run`.
unfoldable pub after_poll :
    Option (Result (Unit {0}) Error)
    → Option (Result (Unit {0}) Error)
    → Option (Result (Unit {0}) Error)
after_poll none rest = rest
after_poll (some (ok u)) rest = rest
after_poll (some (err e)) rest = some (err e)

-- One member of a list, and the others.
unfoldable pub take_out : ℕ → List Scheduled → Option (Scheduled × List Scheduled)
take_out i [] = none
take_out zero (s ∷ ss) = some (s, ss)
take_out (suc i) (s ∷ ss) = elim (take_out i ss) [
  | none ↦ none
  | some (t, rest) ↦ some (t, s ∷ rest)
]

module _ {channel : Channel} {U Bson : Type 0} where
  -- `Service::new`, after its registration, with empty endpoints.
  unfoldable pub new : String → ℕ → World U Bson → Store channel → Service channel U Bson
  unfolding Events.new
  new service_name rpc world store =
      let (event, store2) = Events.new channel store in
      record {
        service_name = service_name;
        endpoints = record { methods = []; signals = []; states = [] };
        client_map = [];
        client_poll_handles = [];
        hub_connection = rpc;
        reconnect_signal = event;
        store = store2;
        world = world;
        monitor_stream = none;
      }

  -- `Service::schedule_client_poll`
  unfoldable pub schedule_client_poll :
      ClientHandle → Service channel U Bson → Service channel U Bson
  schedule_client_poll h s = record s {
    client_poll_handles = record { handle = h; phase = polling } ∷ s.client_poll_handles;
  }

  -- The end of `Service::handle_new_connection`: a second connection of a peer is dropped.
  unfoldable pub add_client :
      String → ClientHandle × Store channel → Service channel U Bson → Service channel U Bson
  unfolding schedule_client_poll client_handle contains_key insert
  add_client service_name (h, store) s =
      if contains_key service_name s.client_map
      then record s { store = store }
      else schedule_client_poll h (record s {
        store = store;
        client_map = insert service_name (client_handle h) s.client_map;
      })

  unfoldable pub handle_body : Setting → Body Bson → Service channel U Bson → Service channel U Bson
  unfolding add_client new_handle
  handle_body setting (fd service_name stream) s =
      if setting.monitor && text_eq service_name monitor_service_name
      then record s { monitor_stream = some stream }
      else add_client service_name
          (new_handle channel false service_name stream s.hub_connection s.reconnect_signal false
            s.store)
          s
  handle_body setting other s = s

  -- `Service::handle_new_connection`
  unfoldable pub handle_new_connection :
      Setting → Message Bson → Service channel U Bson → Service channel U Bson
  unfolding handle_body
  handle_new_connection setting request s = handle_body setting request.body s

  -- `Service::handle_incoming_call`
  unfoldable pub handle_incoming_call :
      Setting → String → ℕ → Message Bson → Service channel U Bson → Service channel U Bson
  handle_incoming_call setting service_name writer request s = record s {
    world =
        handle_call setting.inspection setting.takes s.endpoints service_name writer request
          s.world;
  }

  -- The first arm of `poll` from the await of `handle_incoming_call` on, where nobody drops the future
  -- of `poll`.
  abbrev pub finish_call :
      Setting
      → ClientHandle
      → String
      → Message Bson
      → Service channel U Bson
      → Service channel U Bson
  finish_call setting h service_name request s =
      schedule_client_poll h (handle_incoming_call setting service_name h.rpc request s)

  -- The first arm of `poll`, from what the future did; `s` has the other futures. The future of `poll`
  -- is polled to its end.
  unfoldable pub on_polled :
      Setting
      → ClientHandle
      → Polled Bson × Store channel
      → Service channel U Bson
      → Outcome (Service channel U Bson)
  unfolding schedule_client_poll handle_incoming_call remove
  on_polled setting h (pending phase, store) s = (
    none,
    record s {
      store = store;
      client_poll_handles = record { handle = h; phase = phase } ∷ s.client_poll_handles;
    },
  )
  on_polled setting h (ready (message service_name request), store) s =
      (some (ok tt), finish_call setting h service_name request (record s { store = store }))
  on_polled setting h (ready (disconnect service_name), store) s =
      (some (ok tt), record s { store = store; client_map = remove service_name s.client_map })

  -- The first arm of `poll` where the future of `poll` is dropped at the await of
  -- `handle_incoming_call`, as an arm of a `select!` that another one overtakes: what the call did by
  -- then has made `world`, and the `ClientHandle` is gone. `none` is not to come to that await.
  unfoldable pub on_dropped :
      World U Bson
      → Polled Bson × Store channel
      → Service channel U Bson
      → Option (Service channel U Bson)
  on_dropped world (pending phase, store) s = none
  on_dropped world (ready (message service_name request), store) s =
      some (record s { store = store; world = world })
  on_dropped world (ready (disconnect service_name), store) s = none

  unfoldable pub drop_poll :
      World U Bson
      → LinkEvent Bson
      → Option (Scheduled × List Scheduled)
      → Service channel U Bson
      → Option (Service channel U Bson)
  unfolding on_dropped Handles.poll
  drop_poll world link none s = none
  drop_poll world link (some (future, rest)) s =
      on_dropped world (Handles.poll channel future.handle future.phase link s.store)
        (record s { client_poll_handles = rest })

  unfoldable pub poll_client :
      Setting
      → LinkEvent Bson
      → Option (Scheduled × List Scheduled)
      → Service channel U Bson
      → Outcome (Service channel U Bson)
  unfolding on_polled Handles.poll
  poll_client setting link none s = (none, s)
  poll_client setting link (some (future, rest)) s =
      on_polled setting future.handle (Handles.poll channel future.handle future.phase link s.store)
        (record s { client_poll_handles = rest })

  -- The hub is connected again, under the old name of the connection, or it refuses the service.
  unfoldable pub on_reconnected :
      Option (Result ℕ Error) → Service channel U Bson → Outcome (Service channel U Bson)
  unfolding emit
  on_reconnected none s = (none, s)
  on_reconnected (some (ok rpc)) s =
      (some (ok tt), record s { store = emit channel s.reconnect_signal (ok tt) s.store })
  on_reconnected (some (err e)) s =
      (some (ok tt), record s { store = emit channel s.reconnect_signal (err e) s.store })

  -- `Service::poll`, at one event.
  unfoldable pub poll :
      Setting → Event Bson → Service channel U Bson → Outcome (Service channel U Bson)
  unfolding poll_client take_out handle_new_connection on_reconnected Register.hub_connect
  poll setting (client i link) s = poll_client setting link (take_out i s.client_poll_handles) s
  poll setting (hub_request request) s = (some (ok tt), handle_new_connection setting request s)
  poll setting (hub_lost attempts) s = on_reconnected (Register.hub_connect attempts) s
  poll setting interrupted s = (some (ok tt), s)

  -- `Service::run`: what it returns after some events, if it does.
  unfoldable pub run :
      Setting → List (Event Bson) → Service channel U Bson → Option (Result (Unit {0}) Error)
  unfolding poll after_poll
  run setting [] s = none
  run setting (event ∷ events) s =
      let (r, s2) = poll setting event s in after_poll r (run setting events s2)
