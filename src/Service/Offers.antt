-- ===== src/Service/Offers.antt =====
-- krossbar-bus-lib/src/service.rs: what the owner of a service calls on it. The endpoints are those of
-- Endpoints, and `connect_impl` is that of Connect.
use krossbar_bus.Common.{String, true, false, Result}
use krossbar_bus.Protocol.{Error}
use krossbar_bus.Client.Events.{Channel}
use krossbar_bus.Endpoints.World.{World}
use krossbar_bus.Endpoints.Signals.{Signal}
use krossbar_bus.Endpoints.States.{State}
use krossbar_bus.Endpoints.Calls
use krossbar_bus.Service.Poll.{Service}
use krossbar_bus.Service.Connect.{Progress, connect_impl}

module _ {channel : Channel} {U Bson : Type 0} where
  unfoldable pub connect : String → Service channel U Bson → Progress (Service channel U Bson)
  unfolding connect_impl
  connect service_name s = connect_impl service_name false s

  unfoldable pub connect_await : String → Service channel U Bson → Progress (Service channel U Bson)
  unfolding connect_impl
  connect_await service_name s = connect_impl service_name true s

  -- Of a method and of an asynchronous one, whose future is awaited where it is called.
  unfoldable pub register_method :
      {P R : Type 0}
      → (Bson → Result P String)
      → (R → Result Bson String)
      → String
      → (String → P → World U Bson → R × World U Bson)
      → Service channel U Bson
      → Result (Unit {0}) Error × Service channel U Bson
  unfolding Calls.register_method
  register_method from_bson to_bson name func s =
      let (r, es) = Calls.register_method from_bson to_bson name func s.endpoints in
      (r, record s { endpoints = es })

  unfoldable pub register_signal :
      {T : Type 0}
      → (T → Result Bson String)
      → String
      → Service channel U Bson
      → Result (Signal T Bson) Error × Service channel U Bson
  unfolding Calls.register_signal
  register_signal to_bson name s =
      let (r, es, w) = Calls.register_signal to_bson name s.endpoints s.world in
      (r, record s { endpoints = es; world = w })

  unfoldable pub register_state :
      {T : Type 0}
      → (T → Result Bson String)
      → String
      → T
      → Service channel U Bson
      → Result (State T) Error × Service channel U Bson
  unfolding Calls.register_state
  register_state to_bson name value s =
      let (r, es, w) = Calls.register_state to_bson name value s.endpoints s.world in
      (r, record s { endpoints = es; world = w })
