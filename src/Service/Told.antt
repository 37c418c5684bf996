-- ===== src/Service/Told.antt =====
-- krossbar-bus-lib/src/service.rs and endpoints/mod.rs: the one-way messages of the peers of a service.
use krossbar_bus.Common.{ℕ, String, ◌≡◌, refl, ◌∙◌, ap, some, List, ◌∷◌, Result, ok}
use krossbar_bus.Common.Maps.{get}
use krossbar_bus.Protocol.{Error}
use krossbar_bus.Rpc.{Body}
use krossbar_bus.Endpoints.World.{World}
use krossbar_bus.Endpoints.Calls
use krossbar_bus.Endpoints.Answers.{register_method-get, registered_method_told}
use krossbar_bus.Client.Events.{Channel}
use krossbar_bus.Client.Handles.{Client, polling, received}
use krossbar_bus.Service.Poll.{Scheduled, Setting, Service, client, take_out, poll_client, poll}
use krossbar_bus.Service.Connect.{returned}
use krossbar_bus.Service.Serves.{Life-SameEndpoints}
use krossbar_bus.Service.Connect.{Progress}
use krossbar_bus.Service.Life.{Life}

module _ {channel : Channel} {U Bson P R : Type 0} (from_bson : Bson → Result P String)
    (to_bson : R → Result Bson String) (func : String → P → World U Bson → R × World U Bson) where
  -- A service that registered a method, and was then polled and connected to peers in any way: when a peer
  -- whose connection is polled sends it a message of that name which can be read, then `poll` returns, the
  -- function has run on the message, nothing was written but what the function wrote, and the connection
  -- is polled again.
  pub peers_are_told :
      (name : String) (es : Calls.Endpoints U Bson) (p0 : Progress (Service channel U Bson))
      (s : Service channel U Bson) (r : Result Client Error) (setting : Setting) (i id : ℕ)
      (f : Scheduled) (rest : List Scheduled) (body : Bson) (x : P)
      → Calls.register_method from_bson to_bson name func es ≡ (ok tt, p0.1.endpoints)
      → Life p0 (returned r, s)
      → take_out i s.client_poll_handles ≡ some (f, rest)
      → f.phase ≡ polling
      → from_bson body ≡ ok x
      → let h = f.handle in
        poll setting
          (client i
            (received (record { message_id = id; endpoint = name; body = Body.message body })))
          s
        ≡ (
          some (ok tt),
          record s {
            world = (func h.service_name x s.world).1;
            client_poll_handles = record { handle = h; phase = polling } ∷ rest;
          },
        )
  unfolding poll
  peers_are_told name es p0 s r setting i id f rest body x registered l out at e =
      let kept : s.endpoints ≡ p0.1.endpoints = Life-SameEndpoints l in
      let there : get name s.endpoints.methods
          ≡ some (Calls.internal_method from_bson to_bson func) =
        ap (λ (es : Calls.Endpoints U Bson). get name es.methods) kept
        ∙ register_method-get from_bson to_bson func name es p0.1.endpoints registered in
      let told =
        registered_method_told from_bson to_bson func name s.endpoints setting.inspection
          setting.takes f.handle.service_name f.handle.rpc id body x s.world there e in
      rw (out, poll_client, at) (rw told refl)
