-- ===== src/Service/Dropped.antt =====
-- krossbar-bus-lib/src/service.rs: `poll` in a `select!` of its caller (README.md shows that use), whose
-- future is dropped at an await.
use krossbar_bus.Common.{
  ℕ, String, ◌≡◌, refl, some, none, List, true, false, ◌&&◌, arith, text_eq, eq_iff,
}
use krossbar_bus.Common.Maps.{contains_key, contains_key-get}
use krossbar_bus.Protocol.{monitor_service_name}
use krossbar_bus.Rpc.{Message, fd}
use krossbar_bus.Endpoints.World.{World}
use krossbar_bus.Client.Events.{Channel}
use krossbar_bus.Client.Handles
use krossbar_bus.Client.Handles.{ClientHandle, Phase, polling, LinkEvent, received, client_handle}
use krossbar_bus.Service.Poll.{
  Scheduled, Setting, Service, take_out, on_dropped, drop_poll, hub_request, handle_body,
  handle_new_connection, add_client, poll,
}
use krossbar_bus.Service.Peers.{client_of, take_out-IsSplit, Inv}

module _ {channel : Channel} {U Bson : Type 0} where
  -- A peer that the map names, and that no future looks after.
  pub record IsLost (name : String) (s : Service channel U Bson) : Type 0 where
    pub known : contains_key name s.client_map ≡ true
    pub unpolled : client_of name s.client_poll_handles ≡ none

  -- A new connection of a lost peer is dropped.
  new_connection-IsLost :
      (setting : Setting) (request : Message Bson) (name : String) (stream : ℕ)
      (s : Service channel U Bson)
      → request.body ≡ fd name stream
      → (setting.monitor && text_eq name monitor_service_name) ≡ false
      → IsLost name s
      → IsLost name (poll setting (hub_request request) s).1
  unfolding poll handle_new_connection handle_body add_client
  new_connection-IsLost setting request name stream s b m l =
      rw (b, handle_body, m, add_client, l.known)
        (record { known = l.known; unpolled = l.unpolled })

  -- The clients of a service agree with its futures, one of which receives a message of its peer, and
  -- the future of `poll` is dropped while the call is handled, whatever the call has done by then: the
  -- map still names the peer, no future looks after it any more, and this stays so when the peer, which
  -- is not the monitor, connects again.
  pub dropped_poll_loses_peer :
      (setting : Setting) (i : ℕ) (f : Scheduled) (rest : List Scheduled)
      (request again : Message Bson) (stream : ℕ) (world : World U Bson)
      (s : Service channel U Bson)
      → Inv s
      → take_out i s.client_poll_handles ≡ some (f, rest)
      → f.phase ≡ polling
      → again.body ≡ fd f.handle.service_name stream
      → (setting.monitor && text_eq f.handle.service_name monitor_service_name) ≡ false
      → let s2 = record s { client_poll_handles = rest; world = world } in
        (drop_poll world (received request) (take_out i s.client_poll_handles) s ≡ some s2)
        × IsLost f.handle.service_name s2
        × IsLost f.handle.service_name (poll setting (hub_request again) s2).1
  unfolding drop_poll
  dropped_poll_loses_peer setting i f rest request again stream world s v e ph b m =
      let split = take_out-IsSplit i s.client_poll_handles f rest v.one_each e in
      let lost : IsLost f.handle.service_name
          (record s { client_poll_handles = rest; world = world }) =
        record {
          known = ground (
            arith,
            contains_key-get f.handle.service_name s.client_map,
            v.agree f.handle.service_name,
            split.clients f.handle.service_name,
            eq_iff f.handle.service_name f.handle.service_name,
          );
          unpolled = split.apart;
        } in
      (
        rw (e, drop_poll, ph, Handles.poll, on_dropped) refl,
        lost,
        new_connection-IsLost setting again f.handle.service_name stream _ b m lost,
      )
