-- ===== src/Samples/ServiceRuns.antt =====
-- The theorems on services, applied to a service that another one connects to.
use krossbar_bus.Common.{inl, inr, ℕ, true, false, none, some, [], ◌∷◌, ◌++◌, ◌≡◌, refl, ok, err}
use krossbar_bus.Common.Maps.{get}
use krossbar_bus.Protocol.{not_allowed}
use krossbar_bus.Rpc.{Message, fd, Body}
use krossbar_bus.Client.Events.{Store}
use krossbar_bus.Client.Handles
use krossbar_bus.Service.Starved.{reconnect_wakes_one}
use krossbar_bus.Client.Handles.{
  ClientHandle, answered, client_handle, pending, waiting, notified, dialed, received, Client,
  asking, dialing, lost, polling,
}
use krossbar_bus.Endpoints.World.{Payload, World, respond}
use krossbar_bus.Endpoints.Calls
use krossbar_bus.Endpoints.Answers.{Answered}
use krossbar_bus.Service.Serves.{peers_are_served}
use krossbar_bus.Service.Register.{
  connected, failed, not_found, connection_refused, other, response, registered, hub_connect,
  hub_is_down,
}
use krossbar_bus.Service.Poll.{
  Scheduled, Setting, Service, hub_lost, hub_request, interrupted, client, new, poll, run, take_out,
  drop_poll,
}
use krossbar_bus.Service.Connect.{
  dialed as dialed_peer, returned, polled, Progress, connect_impl, connect_step,
}
use krossbar_bus.Service.Peers.{Inv}
use krossbar_bus.Service.Life.{begun, polls, asks, Holds, new-Holds, clients_are_polled}
use krossbar_bus.Service.Dropped.{IsLost, dropped_poll_loses_peer}
use krossbar_bus.Service.Panics.{peer_connects, connect_panics}
use krossbar_bus.Service.Reconnect.{ComesBack, again, reconnects_after_connect}
use krossbar_bus.Service.Retry.{hub_connect_lem, run_never_returns}
use krossbar_bus.Samples.EndpointRuns.{quiet, all_take, to_bson, no_endpoints, count, with_method}
use krossbar_bus.Samples.ClientRuns.{fifo, empty_store}

abbrev pub Numbers : Type 0
Numbers = Service fifo ℕ ℕ

abbrev pub setting : Setting
setting = record { inspection = true; monitor = true; takes = all_take }

abbrev pub made : Numbers
made = new "com.a" 1 quiet empty_store

abbrev peer_comes : Message ℕ
peer_comes = record { message_id = 3; endpoint = "connect"; body = fd "com.b" 5 }

-- The other service is connected.
abbrev joined : Numbers
joined = (poll setting (hub_request peer_comes) made).1

made-Holds : Holds (returned (err not_allowed), made)
made-Holds = new-Holds "com.a" 1 quiet empty_store (err not_allowed)

-- The other service connects, and then the service connects to it.
clients_are_polled_example : Holds (connect_impl "com.b" true joined)
clients_are_polled_example =
    clients_are_polled made-Holds
      (asks {r = err not_allowed} "com.b" true (polls setting (hub_request peer_comes) begun))

joined-Inv : Inv joined
unfolding Holds
joined-Inv =
    clients_are_polled made-Holds
      (polls {r = err not_allowed} setting (hub_request peer_comes) begun)

abbrev peer_calls : Message ℕ
peer_calls = record { message_id = 4; endpoint = "count"; body = Body.call 7 }

connect_panics_example :
    connect_step setting "com.c" true asking (polled (hub_request peer_comes)) made ≡ none
connect_panics_example = connect_panics setting "com.c" true asking made (peer_connects peer_comes)

hub_connect_lem_example :
    (hub_connect (failed not_found ∷ failed connection_refused ∷ []) ≡ none)
    × (hub_connect (
          (failed not_found ∷ failed connection_refused ∷ [])
          ++ connected 3 (response (ok tt)) ∷ [])
        ≡ some (registered 3 (response (ok tt))))
    × (hub_connect ((failed not_found ∷ failed connection_refused ∷ []) ++ failed other ∷ [])
        ≡ some (err not_allowed))
unfolding hub_is_down
hub_connect_lem_example =
    hub_connect_lem (failed not_found ∷ failed connection_refused ∷ []) [] 3 (response (ok tt))
      (inl refl, (inr refl, tt))

run_goes_on : run setting (hub_request peer_comes ∷ interrupted ∷ []) made ≡ none
run_goes_on = run_never_returns setting (hub_request peer_comes ∷ interrupted ∷ []) made

abbrev peer : Client
peer = record { service_name = "com.b"; writer = 5; hub_reconnect_event = 1; outgoing = 1 }

abbrev future : Scheduled
future = record {
  handle = record {
    service_name = "com.b";
    rpc = 5;
    hub_connection = 1;
    hub_reconnect_event = 0;
    outgoing = 1;
    self_reconnect_event = 1;
    wait_connect = false;
  };
  phase = polling;
}

known_peer_reconnects :
    ((connect_impl "com.b" true joined).0 ≡ returned (ok (client_handle future.handle)))
    × ComesBack setting 0 future [] (connect_impl "com.b" true joined).1
unfolding get poll new connect_impl
known_peer_reconnects =
    reconnects_after_connect joined joined-Inv "com.b" true setting
      (connect_impl "com.b" true joined) 0 future [] (again peer refl) refl refl refl

-- The peer calls, the poll is dropped while its call is handled, and the peer connects again.
dropped_poll_loses_peer_example :
    let lost : Numbers = record joined { client_poll_handles = []; world = quiet } in
    (drop_poll quiet (received peer_calls) (take_out 0 joined.client_poll_handles) joined
      ≡ some lost)
    × IsLost "com.b" lost
    × IsLost "com.b" (poll setting (hub_request peer_comes) lost).1
unfolding get poll new
dropped_poll_loses_peer_example =
    dropped_poll_loses_peer setting 0 future [] peer_calls peer_comes 5 quiet joined joined-Inv refl
      refl refl refl

-- The hub hands over a stream to a service that has no peers yet.
abbrev first_peer : Progress Numbers
first_peer = elim (connect_step setting "com.b" true asking (dialed_peer (answered (ok 5))) made) [
  | none ↦ (returned (err not_allowed), made)
  | some p ↦ p
]

-- The service waits for its peer.
abbrev waiting_future : Scheduled
waiting_future = record future { handle = record future.handle { wait_connect = true } }

abbrev serving : Numbers
serving = record made { endpoints = with_method }

abbrev serving_peer : Numbers
serving_peer = (poll setting (hub_request peer_comes) serving).1

peers_are_served_example :
    (a : Payload ℕ) × (w : World ℕ ℕ) × Answered to_bson to_bson count "com.b" 7 serving_peer.world
      a w
    × (poll setting
          (client 0 (received (record { message_id = 4; endpoint = "count"; body = Body.call 7 })))
          serving_peer
        ≡ (
          some (ok tt),
          record serving_peer {
            world = respond (4, 5) a w;
            client_poll_handles = record { handle = future.handle; phase = polling } ∷ [];
          },
        ))
unfolding poll new Calls.register_method
peers_are_served_example =
    peers_are_served to_bson to_bson count "count" no_endpoints serving serving_peer
      (err not_allowed) (err not_allowed) setting 0 4 future [] 7 refl refl
      (polls {r = err not_allowed} setting (hub_request peer_comes) begun) refl refl

abbrev other_peer : ClientHandle
other_peer = record future.handle { service_name = "com.c"; rpc = 6 }

reconnect_wakes_one_example :
    let s2 = (poll setting (hub_lost (connected 3 (response (ok tt)) ∷ [])) made).1 in
    (after : Store fifo) × (Handles.poll fifo {Bson = ℕ} future.handle
        (dialing waiting)
        (dialed notified)
        s2.store
      ≡ (pending (dialing asking), after))
    × (Handles.poll fifo {Bson = ℕ} other_peer (dialing waiting) (dialed notified) after
        ≡ (pending (dialing waiting), after))
unfolding hub_connect registered new
reconnect_wakes_one_example =
    reconnect_wakes_one setting (connected 3 (response (ok tt)) ∷ []) 3 made future.handle
      other_peer refl refl refl refl
