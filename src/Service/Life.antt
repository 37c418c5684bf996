-- ===== src/Service/Life.antt =====
-- krossbar-bus-lib/src/service.rs: the life of a service, which is polled, each time to the end, and
-- which its owner connects to peers.
use krossbar_bus.Common.{
  ℕ, String, ◌≡◌, refl, ◌∙◌, ap, subst, Bool, Option, none, some, List, some_inj, inl, inr,
  Option-cases, Result, ok, err,
}
use krossbar_bus.Common.Maps.{get}
use krossbar_bus.Protocol.{Error}
use krossbar_bus.Endpoints.World.{World}
use krossbar_bus.Client.Events.{Channel, Store}
use krossbar_bus.Client.Handles
use krossbar_bus.Client.Handles.{
  Client, ClientHandle, Phase, polling, LinkEvent, Polled, pending, ready, message, disconnect,
  Dial, DialEvent, DialResult, still, got, client_handle, new_handle,
}
use krossbar_bus.Service.Poll.{
  Scheduled, Setting, Service, Event, client, hub_request, hub_lost, interrupted, Outcome, take_out,
  on_polled, poll_client, on_reconnected, poll, new,
}
use krossbar_bus.Service.Register
use krossbar_bus.Service.Connect.{
  returned, connecting, ConnectEvent, dialed, polled, Progress, connect_impl, on_dialed, on_poll,
  connect_step,
}
use krossbar_bus.Service.Peers.{client_of, Inv, Inv-added, Inv-kept}
use krossbar_bus.Service.Agree.{poll-Inv}

module _ {channel : Channel} {U Bson : Type 0} where
  -- Where the owner of a service stands, between two awaits. The owner polls each future of `poll` to
  -- its end; `Dropped` is about one that is dropped before.
  pub data Life (p0 : Progress (Service channel U Bson))
      : Progress (Service channel U Bson) → Type 0 where
    begun : Life p0 p0
    polls :
        {r : Result Client Error} {s : Service channel U Bson} (setting : Setting)
        (event : Event Bson)
        → Life p0 (returned r, s)
        → Life p0 (returned r, (poll setting event s).1)
    asks :
        {r : Result Client Error} {s : Service channel U Bson} (name : String) (wait : Bool)
        → Life p0 (returned r, s)
        → Life p0 (connect_impl name wait s)
    goes_on :
        {name : String} {wait : Bool} {dial : Dial} {s : Service channel U Bson}
        {p : Progress (Service channel U Bson)} (setting : Setting) (event : ConnectEvent Bson)
        → Life p0 (connecting name wait dial, s)
        → connect_step setting name wait dial event s ≡ some p
        → Life p0 p

  -- The peers agree, and the peer to connect to is not there yet.
  unfoldable pub Holds : Progress (Service channel U Bson) → Type 0
  Holds (returned r, s) = Inv s
  Holds (connecting name wait dial, s) = Inv s × (get name s.client_map ≡ none)

  connect_impl-Holds :
      (name : String) (wait : Bool) (s : Service channel U Bson)
      → Inv s
      → Holds (connect_impl name wait s)
  unfolding connect_impl Holds
  connect_impl-Holds name wait s v = elim (Option-cases (get name s.client_map)) [
    | inl e ↦ rw (connect_impl, e) (v, e)
    | inr (c, e) ↦ rw (connect_impl, e) (Inv-kept s _ v refl refl)
  ]

  on_polled-map :
      (setting : Setting) (h : ClientHandle) (p : Polled Bson × Store channel)
      (s : Service channel U Bson)
      → (on_polled setting h p s).0 ≡ none
      → (on_polled setting h p s).1.client_map ≡ s.client_map
  unfolding on_polled
  on_polled-map setting h (pending phase, store) s e = refl
  on_polled-map setting h (ready (message n m), store) s e = cc
  on_polled-map setting h (ready (disconnect n), store) s e = cc

  -- A poll that does not return leaves the clients alone.
  poll-map :
      (setting : Setting) (event : Event Bson) (s : Service channel U Bson)
      → (poll setting event s).0 ≡ none
      → (poll setting event s).1.client_map ≡ s.client_map
  unfolding poll
  poll-map setting (client i link) s e = go (take_out i s.client_poll_handles) e
    where
      go :
          (o : Option (Scheduled × List Scheduled))
          → (poll_client setting link o s).0 ≡ none
          → (poll_client setting link o s).1.client_map ≡ s.client_map
      go none q = refl
      go (some (f, rest)) q =
          on_polled-map setting f.handle _ (record s { client_poll_handles = rest }) q
  poll-map setting (hub_request request) s e = cc
  poll-map setting (hub_lost attempts) s e = go (Register.hub_connect attempts) e
    where
      go :
          (o : Option (Result ℕ Error))
          → (on_reconnected o s).0 ≡ none
          → (on_reconnected o s).1.client_map ≡ s.client_map
      go none q = refl
      go (some (ok rpc)) q = refl
      go (some (err x)) q = refl
  poll-map setting interrupted s e = refl

  on_dialed-Holds :
      (name : String) (wait : Bool) (r : DialResult × Store channel) (s : Service channel U Bson)
      → Holds (connecting name wait Handles.asking, s)
      → Holds (on_dialed name wait r s)
  unfolding on_dialed Holds
  on_dialed-Holds name wait (still dial, store) s (v, free) = (Inv-kept s _ v refl refl, free)
  on_dialed-Holds name wait (got (err e), store) s (v, free) = Inv-kept s _ v refl refl
  on_dialed-Holds name wait (got (ok stream), store) s (v, free) =
      Inv-added s _ v (record { handle = _; phase = polling }) free refl refl

  connect_step-Holds :
      (setting : Setting) (name : String) (wait : Bool) (dial : Dial) (event : ConnectEvent Bson)
      (s : Service channel U Bson) (p : Progress (Service channel U Bson))
      → Holds (connecting name wait dial, s)
      → connect_step setting name wait dial event s ≡ some p
      → Holds p
  unfolding connect_step Holds
  connect_step-Holds setting name wait dial (dialed e) s p h q =
      subst Holds (some_inj q) (on_dialed-Holds name wait _ s h)
  connect_step-Holds setting name wait dial (polled event) s p (v, free) q =
      go (poll setting event s) refl (poll-Inv setting s v event) (poll-map setting event s) q
    where
      go :
          (o : Outcome (Service channel U Bson))
          → poll setting event s ≡ o
          → Inv o.1
          → (o.0 ≡ none → o.1.client_map ≡ s.client_map)
          → on_poll name wait dial o ≡ some p
          → Holds p
      go (none, t) e w same q = subst Holds (some_inj q) (w, ap (get name) (same refl) ∙ free)
      go (some r, t) e w same q = cc

  -- Whatever sequence of events a service is polled with, where each future of `poll` is polled to its
  -- end, and however it is connected to peers in between, from a start at which they agree: its map
  -- names a client exactly if one future looks after that client, with the same writer and the same
  -- shared flag and event, and no peer has two futures; while it connects to a peer, the map has no
  -- client of that name.
  pub clients_are_polled :
      {p0 p : Progress (Service channel U Bson)} → Holds p0 → Life p0 p → Holds p
  unfolding Holds
  clients_are_polled h begun = h
  clients_are_polled h (polls setting event l) = poll-Inv setting _ (clients_are_polled h l) event
  clients_are_polled h (asks name wait l) = connect_impl-Holds name wait _ (clients_are_polled h l)
  clients_are_polled h (goes_on setting event l e) =
      connect_step-Holds setting _ _ _ event _ _ (clients_are_polled h l) e

  -- A service that was just made has no peers.
  pub new-Holds :
      (name : String) (rpc : ℕ) (world : World U Bson) (store : Store channel)
      (r : Result Client Error)
      → Holds (returned r, new name rpc world store)
  unfolding new Holds get client_of
  new-Holds name rpc world store r = record { agree = λ n. refl; one_each = tt }
