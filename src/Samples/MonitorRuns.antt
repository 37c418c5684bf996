-- ===== src/Samples/MonitorRuns.antt =====
-- The monitor connects to a service, which tells it of a subscription; and the texts of the connect tool.
use krossbar_bus.Common.{
  List, ℕ, String, true, none, some, [], ◌++◌, ◌∷◌, ◌≡◌, refl, Result, ok, err, split, cons_first,
}
use krossbar_bus.Common.Maps.{get, contains_key, insert}
use krossbar_bus.Protocol.{not_allowed}
use krossbar_bus.Rpc.{Body}
use krossbar_bus.Client.Handles.{answered, received, polling, asking, Client}
use krossbar_bus.Endpoints.World.{World, update}
use krossbar_bus.Service.Register.{Attempt, connected, response}
use krossbar_bus.Service.Poll.{Scheduled, Event, client, poll, new}
use krossbar_bus.Service.Connect.{dialed, returned, Progress, connect_step}
use krossbar_bus.Service.Life.{begun, goes_on}
use krossbar_bus.Tools.Monitor.{
  Style, MonitorMessage, incoming, subscription, handle_message, concat, short_name, push_short,
  push_first,
}
use krossbar_bus.Tools.Inspect.{Bright}
use krossbar_bus.Tools.Starts.{monitor_poll, Started, went_on, waits, panics, Printed, monitor}
use krossbar_bus.Tools.Watches.{Watcher, monitor_prints}
use krossbar_bus.Tools.Texts.{insert_on_previous_line, new as new_helper, hint, format_response}
use krossbar_bus.Samples.ClientRuns.{fifo, empty_store}
use krossbar_bus.Samples.ServiceRuns.{setting}

abbrev plain : Style ℕ
plain = record {
  red = λ s. s;
  green = λ s. s;
  yellow = λ s. s;
  blue = λ s. s;
  purple = λ s. s;
  magenta = λ s. s;
  white = λ s. s;
  extjson = λ b. "0";
  print_number = λ n. "7";
  print_error = λ e. "error";
}

abbrev told : MonitorMessage ℕ
told = record {
  direction = incoming;
  peer_name = "com.krossbar.client";
  id = 7;
  data' = subscription "ticks";
}

abbrev reads : ℕ → Result (MonitorMessage ℕ) String
reads b = ok told

abbrev writes : Unit {0} → Result ℕ String
writes u = ok 0

abbrev nothing_printed : World Printed ℕ
nothing_printed = record { clients = λ a. []; values = λ a. 0; next = 0; sent = []; user = some [] }

abbrev tries : List Attempt
tries = connected 1 (response (ok tt)) ∷ []

abbrev begin : Started (Progress (Watcher fifo ℕ))
begin = monitor plain "message" reads writes "com.b" tries nothing_printed empty_store

abbrev at_start : Started (Progress (Watcher fifo ℕ)) → Progress (Watcher fifo ℕ)
at_start (went_on p) = p
at_start waits = (returned (err not_allowed), new "" 0 nothing_printed empty_store)
at_start panics = (returned (err not_allowed), new "" 0 nothing_printed empty_store)

-- The hub hands over the stream to the service.
abbrev watching : Progress (Watcher fifo ℕ)
watching =
    elim (connect_step setting "com.b" true asking (dialed (answered (ok 5))) (at_start begin).1) [
      | none ↦ at_start begin
      | some p ↦ p
    ]

abbrev future : Scheduled
future = record {
  handle = record {
    service_name = "com.b";
    rpc = 5;
    hub_connection = 1;
    hub_reconnect_event = 0;
    outgoing = 1;
    self_reconnect_event = 1;
    wait_connect = true;
  };
  phase = polling;
}

abbrev service : Client
service = record { service_name = "com.b"; writer = 5; hub_reconnect_event = 1; outgoing = 1 }

abbrev tells : Event ℕ
tells = client 0 (received (record { message_id = 3; endpoint = "message"; body = Body.message 9 }))

monitor_prints_example :
    ((text : String)
      → handle_message plain "com.b" told ≡ some text
      → monitor_poll setting tells watching.1
        ≡ some (
          some (ok tt),
          record watching.1 {
            world = record nothing_printed { user = some ([] ++ text ∷ []) };
            client_poll_handles = future ∷ [];
          },
        ))
    × (handle_message plain "com.b" told ≡ none → monitor_poll setting tells watching.1 ≡ none)
unfolding monitor get contains_key insert update poll connect_step
monitor_prints_example =
    monitor_prints plain "message" reads writes "com.b" tries nothing_printed empty_store
      (at_start begin) watching.1 (ok service) setting 0 3 future [] 9 told [] refl
      (goes_on setting (dialed (answered (ok 5))) begun refl) refl refl refl refl

line_is_short :
    handle_message plain "com.b" told ≡ some "c.b <<< c.k.client: [7] Subscription -> ticks"
unfolding handle_message short_name push_short push_first split cons_first concat
line_is_short = refl

abbrev painted : Bright
painted = record { bright_blue = λ s. s; bright_yellow = λ s. s; bright_green = λ s. s }

-- The user has typed `ca`, and a signal comes.
signal_comes :
    insert_on_previous_line painted
      (format_response painted "Signal" "ticks" "4")
      (hint "ca" new_helper)
    ≡ "\u{1b}[2K\u{1b}[s\u{1b}[F\r\n> Signal 'ticks' response: 4\n>> ca\u{1b}[u"
unfolding insert_on_previous_line format_response hint concat
signal_comes = refl
