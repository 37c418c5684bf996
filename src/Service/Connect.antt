-- ===== src/Service/Connect.antt =====
-- krossbar-bus-lib/src/service.rs: `Service::connect` and `Service::connect_await`.
use krossbar_bus.Common.{String, Bool, true, Option, none, some, Result, ok, err}
use krossbar_bus.Common.Maps.{get, insert}
use krossbar_bus.Protocol.{Error}
use krossbar_bus.Client.Events.{Channel, Store}
use krossbar_bus.Client.Handles
use krossbar_bus.Client.Handles.{
  Client, ClientHandle, Dial, asking, DialEvent, DialResult, still, got, client_handle,
  make_outgoing, new_handle,
}
use krossbar_bus.Service.Poll.{Outcome, Setting, Service, Event, schedule_client_poll, poll}

-- Where `connect_impl` stands: it returned, or it waits in `ClientHandle::connect` while it polls the
-- service.
pub data Connecting : Type 0 where
  returned : Result Client Error → Connecting
  connecting : String → Bool → Dial → Connecting

-- What the `select_biased!` of `connect_impl` reacts to.
pub data ConnectEvent (Bson : Type 0) : Type 0 where
  dialed : DialEvent → ConnectEvent Bson
  polled : Event Bson → ConnectEvent Bson

abbrev pub Progress : Type 0 → Type 0
Progress S = Connecting × S

module _ {channel : Channel} {U Bson : Type 0} where
  -- `Service::connect_impl`, up to its first await.
  unfoldable pub connect_impl :
      String → Bool → Service channel U Bson → Progress (Service channel U Bson)
  unfolding get make_outgoing
  connect_impl service_name wait s = elim (get service_name s.client_map) [
    | some handle ↦
        (returned (ok handle), record s { store = make_outgoing channel handle s.store })
    | none ↦ (connecting service_name wait asking, s)
  ]

  -- The end of `ClientHandle::connect` and of `connect_impl`, with the stream of the hub.
  unfoldable pub keep_handle :
      String
      → ClientHandle × Store channel
      → Service channel U Bson
      → Progress (Service channel U Bson)
  unfolding schedule_client_poll client_handle insert
  keep_handle service_name (h, store) s =
      let scheduled = schedule_client_poll h (record s { store = store }) in
      (
        returned (ok (client_handle h)),
        record scheduled {
          client_map = insert service_name (client_handle h) scheduled.client_map;
        },
      )

  unfoldable pub on_dialed :
      String
      → Bool
      → DialResult × Store channel
      → Service channel U Bson
      → Progress (Service channel U Bson)
  unfolding keep_handle new_handle
  on_dialed service_name wait (still dial, store) s =
      (connecting service_name wait dial, record s { store = store })
  on_dialed service_name wait (got (err e), store) s =
      (returned (err e), record s { store = store })
  on_dialed service_name wait (got (ok stream), store) s =
      keep_handle service_name
        (new_handle channel true service_name stream s.hub_connection s.reconnect_signal wait store)
        s

  -- The other arm: a `poll` that returns is a panic.
  unfoldable pub on_poll :
      String
      → Bool
      → Dial
      → Outcome (Service channel U Bson)
      → Option (Progress (Service channel U Bson))
  on_poll service_name wait dial (none, s) = some (connecting service_name wait dial, s)
  on_poll service_name wait dial (some r, s) = none

  -- `connect_impl` at one event; `none` is a panic.
  unfoldable pub connect_step :
      Setting
      → String
      → Bool
      → Dial
      → ConnectEvent Bson
      → Service channel U Bson
      → Option (Progress (Service channel U Bson))
  unfolding on_dialed Handles.hub_connect on_poll poll
  connect_step setting service_name wait dial (dialed e) s = some (
      on_dialed service_name wait (Handles.hub_connect channel s.reconnect_signal dial e s.store) s)
  connect_step setting service_name wait dial (polled e) s =
      on_poll service_name wait dial (poll setting e s)
