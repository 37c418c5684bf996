-- ===== src/Service/Serves.antt =====
-- krossbar-bus-lib/src/service.rs and endpoints/mod.rs: the endpoints of a service in the course of its life.
use krossbar_bus.Common.{
  ℕ, String, ◌≡◌, refl, sym, ◌∙◌, ap, Bool, false, Option, none, some, List, ◌∷◌, some_inj, text_eq,
  Result, ok, err, inl, inr, Bool-cases, ◌&&◌,
}
use krossbar_bus.Common.Maps.{get, contains_key}
use krossbar_bus.Protocol.{Error, inspect_method, monitor_service_name}
use krossbar_bus.Rpc.{Body, fd}
use krossbar_bus.Endpoints.World.{Payload, World, respond}
use krossbar_bus.Endpoints.Calls
use krossbar_bus.Endpoints.Answers.{Answered, registered_method_answers}
use krossbar_bus.Client.Events.{Channel, Store}
use krossbar_bus.Client.Handles
use krossbar_bus.Client.Handles.{
  Client, ClientHandle, polling, LinkEvent, received, Polled, pending, ready, message, disconnect,
  DialResult, still, got,
}
use krossbar_bus.Service.Poll.{
  Scheduled, Setting, Service, Event, client, hub_request, hub_lost, interrupted, Outcome, take_out,
  add_client, handle_body, on_polled, poll_client, on_reconnected, poll,
}
use krossbar_bus.Service.Register
use krossbar_bus.Service.Connect.{
  returned, ConnectEvent, dialed, polled, Progress, connect_impl, on_dialed, on_poll, connect_step,
}
use krossbar_bus.Service.Life.{Life, begun, polls, asks, goes_on}

module _ {channel : Channel} {U Bson : Type 0} where
  -- The endpoints are as they were.
  abbrev SameEndpoints : Service channel U Bson → Service channel U Bson → Type 0
  SameEndpoints s t = t.endpoints ≡ s.endpoints

  add_client-SameEndpoints :
      (name : String) (h : ClientHandle × Store channel) (s : Service channel U Bson)
      → SameEndpoints s (add_client name h s)
  unfolding add_client
  add_client-SameEndpoints name h s = elim (Bool-cases (contains_key name s.client_map)) [
    | inl e ↦ rw e refl
    | inr e ↦ rw e refl
  ]

  handle_body-SameEndpoints :
      (setting : Setting) (body : Body Bson) (s : Service channel U Bson)
      → SameEndpoints s (handle_body setting body s)
  unfolding handle_body
  handle_body-SameEndpoints setting (fd n stream) s =
      elim (Bool-cases (setting.monitor && text_eq n monitor_service_name)) [
        | inl e ↦ rw e refl
        | inr e ↦ rw e (add_client-SameEndpoints n _ s)
      ]
  handle_body-SameEndpoints setting (Body.message b) s = refl
  handle_body-SameEndpoints setting (Body.call b) s = refl
  handle_body-SameEndpoints setting Body.subscription s = refl
  handle_body-SameEndpoints setting Body.response s = refl

  on_polled-SameEndpoints :
      (setting : Setting) (h : ClientHandle) (p : Polled Bson × Store channel)
      (s : Service channel U Bson)
      → SameEndpoints s (on_polled setting h p s).1
  unfolding on_polled
  on_polled-SameEndpoints setting h (pending phase, store) s = refl
  on_polled-SameEndpoints setting h (ready (message n m), store) s = refl
  on_polled-SameEndpoints setting h (ready (disconnect n), store) s = refl

  poll_client-SameEndpoints :
      (setting : Setting) (link : LinkEvent Bson) (o : Option (Scheduled × List Scheduled))
      (s : Service channel U Bson)
      → SameEndpoints s (poll_client setting link o s).1
  unfolding poll_client
  poll_client-SameEndpoints setting link none s = refl
  poll_client-SameEndpoints setting link (some (f, rest)) s =
      on_polled-SameEndpoints setting f.handle _ (record s { client_poll_handles = rest })

  on_reconnected-SameEndpoints :
      (r : Option (Result ℕ Error)) (s : Service channel U Bson)
      → SameEndpoints s (on_reconnected r s).1
  unfolding on_reconnected
  on_reconnected-SameEndpoints none s = refl
  on_reconnected-SameEndpoints (some (ok rpc)) s = refl
  on_reconnected-SameEndpoints (some (err e)) s = refl

  poll-SameEndpoints :
      (setting : Setting) (event : Event Bson) (s : Service channel U Bson)
      → SameEndpoints s (poll setting event s).1
  unfolding poll
  poll-SameEndpoints setting (client i link) s =
      poll_client-SameEndpoints setting link (take_out i s.client_poll_handles) s
  poll-SameEndpoints setting (hub_request m) s = handle_body-SameEndpoints setting m.body s
  poll-SameEndpoints setting (hub_lost attempts) s =
      on_reconnected-SameEndpoints (Register.hub_connect attempts) s
  poll-SameEndpoints setting interrupted s = refl

  pub connect_impl-SameEndpoints :
      (name : String) (wait : Bool) (s : Service channel U Bson)
      → SameEndpoints s (connect_impl name wait s).1
  unfolding connect_impl
  connect_impl-SameEndpoints name wait s = go (get name s.client_map) refl
    where
      go :
          (o : Option Client)
          → get name s.client_map ≡ o
          → SameEndpoints s (connect_impl name wait s).1
      go none e = rw (connect_impl, e) refl
      go (some c) e = rw (connect_impl, e) refl

  on_dialed-SameEndpoints :
      (name : String) (wait : Bool) (r : DialResult × Store channel) (s : Service channel U Bson)
      → SameEndpoints s (on_dialed name wait r s).1
  unfolding on_dialed
  on_dialed-SameEndpoints name wait (still dial, store) s = refl
  on_dialed-SameEndpoints name wait (got (ok stream), store) s = refl
  on_dialed-SameEndpoints name wait (got (err e), store) s = refl

  connect_step-SameEndpoints :
      (setting : Setting) (name : String) (wait : Bool) (dial : Handles.Dial)
      (event : ConnectEvent Bson) (s : Service channel U Bson)
      (p : Progress (Service channel U Bson))
      → connect_step setting name wait dial event s ≡ some p
      → SameEndpoints s p.1
  unfolding connect_step
  connect_step-SameEndpoints setting name wait dial (dialed e) s p q =
      ap (λ (x : Progress (Service channel U Bson)). x.1.endpoints) (sym (some_inj q))
      ∙ on_dialed-SameEndpoints name wait _ s
  connect_step-SameEndpoints setting name wait dial (polled event) s p q =
      go (poll setting event s) (poll-SameEndpoints setting event s) q
    where
      go :
          (o : Outcome (Service channel U Bson))
          → SameEndpoints s o.1
          → on_poll name wait dial o ≡ some p
          → SameEndpoints s p.1
      go (none, t) same q =
          ap (λ (x : Progress (Service channel U Bson)). x.1.endpoints) (sym (some_inj q)) ∙ same
      go (some r, t) same q = cc

  pub Life-SameEndpoints :
      {p0 p : Progress (Service channel U Bson)} → Life p0 p → SameEndpoints p0.1 p.1
  Life-SameEndpoints begun = refl
  Life-SameEndpoints (polls setting event l) =
      poll-SameEndpoints setting event _ ∙ Life-SameEndpoints l
  Life-SameEndpoints (asks name wait l) =
      connect_impl-SameEndpoints name wait _ ∙ Life-SameEndpoints l
  Life-SameEndpoints (goes_on setting event l e) =
      connect_step-SameEndpoints setting _ _ _ event _ _ e ∙ Life-SameEndpoints l

  module _ {P R : Type 0} (from_bson : Bson → Result P String) (to_bson : R → Result Bson String)
      (func : String → P → World U Bson → R × World U Bson) where
    -- A service that registered a method, and was then polled, each time to the end, and connected to
    -- peers in any way: when a peer whose connection is polled calls the method, under a name that is not the name of the
    -- inspection, then `poll` returns, one answer has been written, to that peer, after what the
    -- function did (its result, or the error that says why it cannot be written or, without running
    -- the function, why the parameters cannot be read), and the connection is polled again.
    pub peers_are_served :
        (name : String) (es : Calls.Endpoints U Bson) (s0 s : Service channel U Bson)
        (r0 r : Result Client Error) (setting : Setting) (i id : ℕ) (f : Scheduled)
        (rest : List Scheduled) (params : Bson)
        → Calls.register_method from_bson to_bson name func es ≡ (ok tt, s0.endpoints)
        → text_eq name inspect_method ≡ false
        → Life (returned r0, s0) (returned r, s)
        → take_out i s.client_poll_handles ≡ some (f, rest)
        → f.phase ≡ polling
        → let h = f.handle in
          (a : Payload Bson) × (w : World U Bson) × Answered from_bson to_bson func h.service_name
            params s.world a w
          × (poll setting
                (client i
                  (received (record { message_id = id; endpoint = name; body = Body.call params })))
                s
              ≡ (
                some (ok tt),
                record s {
                  world = respond (id, h.rpc) a w;
                  client_poll_handles = record { handle = h; phase = polling } ∷ rest;
                },
              ))
    unfolding poll
    peers_are_served name es s0 s r0 r setting i id f rest params registered other l out at =
        let kept : s.endpoints ≡ s0.endpoints = Life-SameEndpoints l in
        let (a, w, answered, same) =
          registered_method_answers from_bson to_bson func name es s.endpoints setting.inspection
            setting.takes f.handle.service_name f.handle.rpc id params s.world (rw kept registered)
            other in
        (a, w, answered, rw (out, poll_client, at) (rw same refl))
