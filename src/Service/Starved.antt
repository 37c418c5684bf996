-- ===== src/Service/Starved.antt =====
-- krossbar-bus-lib/src/service.rs and client.rs: the peers that wait for the hub when it is connected
-- again.
use krossbar_bus.Common.{ℕ, ◌≡◌, refl, some, List, ok}
use krossbar_bus.Client.Events.{Channel, Store}
use krossbar_bus.Client.Handles
use krossbar_bus.Client.Handles.{
  ClientHandle, Polled, pending, dialing, asking, waiting, dialed, notified, hub_connect, on_notice,
}
use krossbar_bus.Client.Retries.{emit_wakes_one}
use krossbar_bus.Service.Poll.{Setting, Service, hub_lost, poll, on_reconnected}
use krossbar_bus.Service.Register
use krossbar_bus.Service.Register.{Attempt}

module _ {channel : Channel} {U Bson : Type 0} where
  -- The connections to two peers are lost, and their futures wait for the hub, which is connected
  -- again after the attempts made: if no notice was left over, then the one that is woken first calls
  -- the hub, and the other one, when it looks for a notice, waits on.
  pub reconnect_wakes_one :
      (setting : Setting) (attempts : List Attempt) (rpc : ℕ) (s : Service channel U Bson)
      (first second : ClientHandle)
      → Register.hub_connect attempts ≡ some (ok rpc)
      → s.store.queues s.reconnect_signal ≡ channel.unbounded
      → first.hub_reconnect_event ≡ s.reconnect_signal
      → second.hub_reconnect_event ≡ s.reconnect_signal
      → let s2 = (poll setting (hub_lost attempts) s).1 in
        (after : Store channel) × (Handles.poll channel {Bson = Bson} first
            (dialing waiting)
            (dialed notified)
            s2.store
          ≡ (pending (dialing asking), after))
        × (Handles.poll channel {Bson = Bson} second (dialing waiting) (dialed notified) after
            ≡ (pending (dialing waiting), after))
  unfolding poll Handles.poll hub_connect on_notice
  reconnect_wakes_one setting attempts rpc s first second back empty e1 e2 =
      let (after, woken, starved) = emit_wakes_one s.reconnect_signal (ok tt) s.store empty in
      (after, rw (back, e1, on_reconnected, woken) refl, rw (e2, starved) refl)
