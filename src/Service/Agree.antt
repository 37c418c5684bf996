-- ===== src/Service/Agree.antt =====
-- krossbar-bus-lib/src/service.rs: the map of clients and the futures, after a poll.
use krossbar_bus.Common.{
  ℕ, ◌≡◌, refl, Option, none, some, List, ◌&&◌, arith, text_eq, inl, inr, Bool-cases, Result, ok,
  err,
}
use krossbar_bus.Common.Maps.{contains_key, contains_key-get}
use krossbar_bus.Protocol.{Error}
use krossbar_bus.Protocol.{monitor_service_name}
use krossbar_bus.Rpc.{Body, message, call, subscription, response, fd}
use krossbar_bus.Client.Events.{Channel, Store}
use krossbar_bus.Client.Handles
use krossbar_bus.Client.Handles.{
  Client, ClientHandle, Phase, polling, dialing, LinkEvent, received, lost, dialed, Polled, pending,
  ready, disconnect, Dial, asking, waiting, DialEvent, DialResult, still, got, client_handle,
  new_handle, on_dialed, give_up, hub_connect,
}
use krossbar_bus.Service.Poll.{
  Scheduled, Setting, Service, Event, client, hub_request, hub_lost, interrupted, take_out,
  add_client, handle_body, on_polled, poll_client, on_reconnected, poll,
}
use krossbar_bus.Service.Register
use krossbar_bus.Service.Peers.{
  IsSplit, take_out-IsSplit, Inv, Inv-put_back, Inv-removed, Inv-added, Inv-kept,
}

-- A future hands over the name of its own peer.
abbrev OwnName : {Bson : Type 0} → ClientHandle → Polled Bson → Type 0
OwnName h (pending phase) = Unit {0}
OwnName h (ready (Handles.message n m)) = n ≡ h.service_name
OwnName h (ready (disconnect n)) = n ≡ h.service_name

module _ {channel : Channel} (Bson : Type 0) where
  on_dialed-OwnName :
      (h : ClientHandle) (r : DialResult × Store channel)
      → OwnName h (on_dialed channel {Bson = Bson} h r).0
  unfolding on_dialed
  on_dialed-OwnName h (still dial, store) = tt
  on_dialed-OwnName h (got (ok stream), store) = tt
  on_dialed-OwnName h (got (err e), store) = refl

  poll-OwnName :
      (h : ClientHandle) (phase : Phase) (link : LinkEvent Bson) (store : Store channel)
      → OwnName h (Handles.poll channel h phase link store).0
  unfolding Handles.poll
  poll-OwnName h polling (received m) store = refl
  poll-OwnName h polling lost store = elim (Bool-cases (store.flags h.outgoing)) [
    | inl e ↦ rw e tt
    | inr e ↦ rw e refl
  ]
  poll-OwnName h polling (dialed e) store = tt
  poll-OwnName h (dialing dial) (dialed e) store =
      on_dialed-OwnName h (hub_connect channel h.hub_reconnect_event dial e store)
  poll-OwnName h (dialing dial) (received m) store = tt
  poll-OwnName h (dialing dial) lost store = tt

module _ {channel : Channel} {U Bson : Type 0} where
  module _ (setting : Setting) (s : Service channel U Bson) (v : Inv s) where
    on_polled-Inv :
        (f : Scheduled) (rest : List Scheduled) (p : Polled Bson) (store : Store channel)
        → IsSplit s.client_poll_handles f rest
        → OwnName f.handle p
        → Inv (on_polled setting f.handle (p, store) (record s { client_poll_handles = rest })).1
    unfolding on_polled
    on_polled-Inv f rest (pending phase) store split own =
        Inv-put_back s _ v f (record { handle = f.handle; phase = phase }) rest split refl refl refl
    on_polled-Inv f rest (ready (Handles.message n m)) store split own =
        Inv-put_back s _ v f (record { handle = f.handle; phase = polling }) rest split refl refl
          refl
    on_polled-Inv f rest (ready (disconnect n)) store split own =
        Inv-removed s _ v f rest split (rw own refl) refl

    poll_client-Inv : (i : ℕ) (link : LinkEvent Bson) → Inv (poll setting (client i link) s).1
    unfolding poll
    poll_client-Inv i link = go (take_out i s.client_poll_handles) refl
      where
        go :
            (o : Option (Scheduled × List Scheduled))
            → take_out i s.client_poll_handles ≡ o
            → Inv (poll_client setting link o s).1
        go none e = v
        go (some (f, rest)) e =
            on_polled-Inv f rest _ _ (take_out-IsSplit i s.client_poll_handles f rest v.one_each e)
              (poll-OwnName Bson f.handle f.phase link s.store)

    add_client-Inv :
        (h : ClientHandle) (store : Store channel) → Inv (add_client h.service_name (h, store) s)
    unfolding add_client
    add_client-Inv h store = elim (Bool-cases (contains_key h.service_name s.client_map)) [
      | inl e ↦ rw e (Inv-kept s _ v refl refl)
      | inr e ↦ rw e (
          Inv-added s _ v (record { handle = h; phase = polling })
            (ground (arith, contains_key-get h.service_name s.client_map)) refl refl)
    ]

    handle_body-Inv : (b : Body Bson) → Inv (handle_body setting b s)
    unfolding handle_body
    handle_body-Inv (fd n stream) =
        elim (Bool-cases (setting.monitor && text_eq n monitor_service_name)) [
          | inl e ↦ rw e (Inv-kept s _ v refl refl)
          | inr e ↦ rw e (add_client-Inv _ _)
        ]
    handle_body-Inv (message b) = v
    handle_body-Inv (call b) = v
    handle_body-Inv subscription = v
    handle_body-Inv response = v

    on_reconnected-Inv : (r : Option (Result ℕ Error)) → Inv (on_reconnected r s).1
    unfolding on_reconnected
    on_reconnected-Inv none = v
    on_reconnected-Inv (some (ok rpc)) = Inv-kept s _ v refl refl
    on_reconnected-Inv (some (err e)) = Inv-kept s _ v refl refl

    pub poll-Inv : (event : Event Bson) → Inv (poll setting event s).1
    unfolding poll
    poll-Inv (client i link) = poll_client-Inv i link
    poll-Inv (hub_request request) = handle_body-Inv request.body
    poll-Inv (hub_lost attempts) = on_reconnected-Inv (Register.hub_connect attempts)
    poll-Inv interrupted = v
