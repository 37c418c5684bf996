-- ===== src/Tools/Watches.antt =====
-- krossbar-monitor/src/main.rs: what the monitor prints in the course of its life.
use krossbar_bus.Common.{
  refl, ℕ, String, ◌≡◌, sym, ◌∙◌, ap, Option, none, some, List, [], ◌∷◌, ◌++◌, Result, ok, err,
  true,
}
use krossbar_bus.Protocol.{Error, monitor_service_name}
use krossbar_bus.Rpc.{Body}
use krossbar_bus.Endpoints.World.{World}
use krossbar_bus.Endpoints.Calls
use krossbar_bus.Client.Events.{Channel, Store}
use krossbar_bus.Client.Handles.{Client, polling, received}
use krossbar_bus.Service.Register.{Attempt, hub_connect}
use krossbar_bus.Service.Poll.{Scheduled, Setting, Service, Event, client, take_out, new}
use krossbar_bus.Service.Connect.{returned, Progress}
use krossbar_bus.Service.Offers
use krossbar_bus.Service.Offers.{connect_await}
use krossbar_bus.Common.Maps.{contains_key}
use krossbar_bus.Service.Life.{Life}
use krossbar_bus.Service.Serves.{connect_impl-SameEndpoints}
use krossbar_bus.Service.Told.{peers_are_told}
use krossbar_bus.Tools.Monitor.{Style, MonitorMessage, handle_message}
use krossbar_bus.Tools.Starts.{
  Started, waits, panics, went_on, Printed, println, on_message, monitor_poll, unwind, on_method,
  on_registration, monitor,
}

abbrev pub Watcher : Channel → Type 0 → Type 0
Watcher channel Bson = Service channel Printed Bson

abbrev nothing_registered : {Bson : Type 0} → Calls.Endpoints Printed Bson
nothing_registered = record { methods = []; signals = []; states = [] }

endpoints_of :
    {channel : Channel} {Bson : Type 0}
    → Started (Progress (Watcher channel Bson))
    → Calls.Endpoints Printed Bson
endpoints_of (went_on p) = p.1.endpoints
endpoints_of waits = nothing_registered
endpoints_of panics = nothing_registered

module _ {Bson : Type 0} (style : Style Bson) (message_method : String)
    (from_bson : Bson → Result (MonitorMessage Bson) String)
    (to_bson : Unit {0} → Result Bson String) {channel : Channel} where
  on_registration-registered :
      (target : String) (world : World Printed Bson) (store : Store channel)
      (o : Option (Result ℕ Error)) (p : Progress (Watcher channel Bson))
      → on_registration style message_method from_bson to_bson target world store o ≡ went_on p
      → Calls.register_method from_bson to_bson message_method (on_message style) nothing_registered
        ≡ (ok tt, p.1.endpoints)
  unfolding on_registration on_method endpoints_of Offers.register_method Calls.register_method
      contains_key connect_await new
  on_registration-registered target world store none p e = cc
  on_registration-registered target world store (some (err x)) p e = cc
  on_registration-registered target world store (some (ok rpc)) p e =
      let begun =
        (Offers.register_method from_bson to_bson message_method (on_message style)
          (new monitor_service_name rpc world store)).1 in
      ap (λ (es : Calls.Endpoints Printed Bson). (ok tt, es))
        (sym (connect_impl-SameEndpoints target true begun) ∙ ap endpoints_of e)

  -- In whatever way the monitor was polled and connected since its start, if it has not panicked: when a
  -- peer whose connection is polled sends it a monitor message that bson can read, and its line can be made,
  -- the monitor prints the line after what it has printed, answers nothing, and polls the connection again;
  -- if the line cannot be made, since a name cannot be shortened, the poll panics.
  pub monitor_prints :
      (target : String) (attempts : List Attempt) (world : World Printed Bson)
      (store : Store channel) (p0 : Progress (Watcher channel Bson)) (s : Watcher channel Bson)
      (r : Result Client Error) (setting : Setting) (i id : ℕ) (f : Scheduled)
      (rest : List Scheduled) (body : Bson) (m : MonitorMessage Bson) (texts : List String)
      → monitor style message_method from_bson to_bson target attempts world store ≡ went_on p0
      → Life p0 (returned r, s)
      → s.world.user ≡ some texts
      → take_out i s.client_poll_handles ≡ some (f, rest)
      → f.phase ≡ polling
      → from_bson body ≡ ok m
      → let h = f.handle in
        let message : Event Bson = client i (
          received
            (record { message_id = id; endpoint = message_method; body = Body.message body })) in
        ((text : String)
          → handle_message style h.service_name m ≡ some text
          → monitor_poll setting message s
            ≡ some (
              some (ok tt),
              record s {
                world = record s.world { user = some (texts ++ text ∷ []) };
                client_poll_handles = record { handle = h; phase = polling } ∷ rest;
              },
            ))
        × (handle_message style h.service_name m ≡ none → monitor_poll setting message s ≡ none)
  unfolding monitor on_message monitor_poll unwind println
  monitor_prints target attempts world store p0 s r setting i id f rest body m texts begins l so_far
        out at e =
      let polled =
        peers_are_told from_bson to_bson (on_message style) message_method nothing_registered p0 s r
          setting i id f rest body m
          (on_registration-registered target world store (hub_connect attempts) p0 begins) l out at
          e in
      (
        λ text line. rw (polled) (rw (line) (rw (so_far) refl)),
        λ line. rw (polled) (rw (line) refl),
      )
