-- ===== src/Tools/Starts.antt =====
-- krossbar-monitor/src/main.rs and krossbar-connect/src/main.rs: how the tools start, as services.
use krossbar_bus.Common.{ℕ, String, Option, none, some, List, [], ◌∷◌, ◌++◌, Result, ok, err}
use krossbar_bus.Protocol.{Error, monitor_service_name, connect_service_name}
use krossbar_bus.Endpoints.World.{World}
use krossbar_bus.Client.Events.{Channel, Store}
use krossbar_bus.Client.Handles.{Client}
use krossbar_bus.Service.Register.{Attempt, hub_connect}
use krossbar_bus.Service.Poll.{Outcome, Setting, Event, Service, new, poll}
use krossbar_bus.Service.Connect.{Connecting, returned, connecting, Progress}
use krossbar_bus.Service.Offers.{connect_await, register_method}
use krossbar_bus.Tools.Monitor.{Style, MonitorMessage, handle_message, concat}
use krossbar_bus.Tools.Commands.{
  Peer, Action, show, help, Session, Readline, line, interrupted, eof, failed, run_session,
}
use krossbar_bus.Tools.Texts.{Line, out}

-- Where the start of a tool is: it still waits, one of its `expect`s failed, or it went on.
pub data Started (A : Type 0) : Type 0 where
  waits panics : Started A
  went_on : A → Started A

-- The client that the tool connects to.
unfoldable pub connected : Connecting → Started Client
connected (connecting service_name wait dial) = waits
connected (returned (ok client)) = went_on client
connected (returned (err e)) = panics

-- What the monitor has printed; `none` after a panic.
abbrev pub Printed : Type 0
Printed = Option (List String)

unfoldable pub println : Option String → Printed → Printed
println none printed = none
println (some text) none = none
println (some text) (some texts) = some (texts ++ text ∷ [])

-- The method of the monitor. A panic is noted as such, and ends the task in `monitor_poll`.
unfoldable pub on_message :
    {Bson : Type 0}
    → Style Bson
    → String
    → MonitorMessage Bson
    → World Printed Bson
    → Unit {0} × World Printed Bson
unfolding handle_message println
on_message style service_name message w =
    (tt, record w { user = println (handle_message style service_name message) w.user })

module _ {channel : Channel} {Bson : Type 0} where
  -- A panic in the method unwinds the `poll` that called it.
  unfoldable pub unwind :
      Printed
      → Outcome (Service channel Printed Bson)
      → Option (Outcome (Service channel Printed Bson))
  unwind none o = none
  unwind (some texts) o = some o

  -- `Service::poll` in the task that the monitor spawns; `none` is a panic, which ends the task.
  unfoldable pub monitor_poll :
      Setting
      → Event Bson
      → Service channel Printed Bson
      → Option (Outcome (Service channel Printed Bson))
  unfolding poll unwind
  monitor_poll setting event s = let (r, s2) = poll setting event s in unwind s2.world.user (r, s2)

-- The monitor; the name of its method is that of krossbar_rpc, and bson reads its parameters.
module _ {Bson : Type 0} (style : Style Bson) (message_method : String)
    (from_bson : Bson → Result (MonitorMessage Bson) String)
    (to_bson : Unit {0} → Result Bson String) where
  module _ {channel : Channel} (target_service : String) where
    unfoldable pub on_method :
        Result (Unit {0}) Error × Service channel Printed Bson
        → Started (Progress (Service channel Printed Bson))
    unfolding connect_await
    on_method (ok u, s) = went_on (connect_await target_service s)
    on_method (err e, s) = panics

    unfoldable pub on_registration :
        World Printed Bson
        → Store channel
        → Option (Result ℕ Error)
        → Started (Progress (Service channel Printed Bson))
    unfolding on_method register_method new on_message
    on_registration world store none = waits
    on_registration world store (some (err e)) = panics
    on_registration world store (some (ok rpc)) = on_method (
        register_method from_bson to_bson message_method (on_message style)
          (new monitor_service_name rpc world store))

    -- `main` of the monitor, up to the first await of `connect_await`.
    unfoldable pub monitor :
        List Attempt
        → World Printed Bson
        → Store channel
        → Started (Progress (Service channel Printed Bson))
    unfolding on_registration hub_connect
    monitor attempts world store = on_registration world store (hub_connect attempts)

module _ {channel : Channel} {U Bson : Type 0} (target_service : String) where
  unfoldable pub on_connect_registration :
      World U Bson
      → Store channel
      → Option (Result ℕ Error)
      → Started (Progress (Service channel U Bson))
  unfolding connect_await new
  on_connect_registration world store none = waits
  on_connect_registration world store (some (err e)) = panics
  on_connect_registration world store (some (ok rpc)) =
      went_on (connect_await target_service (new connect_service_name rpc world store))

  -- `main` of the connect tool, up to the first await of `connect_await`.
  unfoldable pub connect_tool :
      List Attempt → World U Bson → Store channel → Started (Progress (Service channel U Bson))
  unfolding on_connect_registration hub_connect
  connect_tool attempts world store = on_connect_registration world store (hub_connect attempts)

module _ (peer : Peer) where
  open peer use {Json, Stream}

  -- The rest of `main`: the help is printed before the terminal is opened, which may fail.
  pub data Ended : Type 0 where
    no_terminal : String → List (Action Json Stream) → Ended
    had_terminal : Session × List (Action Json Stream) → Ended

  unfoldable pub interact : String → Result (Unit {0}) String → List Readline → Client → Ended
  unfolding run_session
  interact target_service (err e) inputs client = no_terminal e (show help ∷ [])
  interact target_service (ok u) inputs client =
      had_terminal (run_session peer target_service inputs (show help ∷ []))

-- What the loop prints when it breaks.
unfoldable pub farewell : Readline → List Line
unfolding concat
farewell (line text) = []
farewell interrupted = out "CTRL-C" ∷ []
farewell eof = out "CTRL-D" ∷ []
farewell (failed e) = out (concat ("Error: " ∷ e ∷ [])) ∷ []
