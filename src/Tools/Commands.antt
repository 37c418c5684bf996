-- ===== src/Tools/Commands.antt =====
-- krossbar-connect/src/main.rs: what the tool does with a line of input, and with a subscription.
use krossbar_bus.Common.{
  String, Bool, true, false, Option, none, some, List, [], ◌∷◌, ◌++◌, Result, ok, err, split,
  text_eq, length, get_elem?, if◌then◌else◌, ◌==◌,
}
use krossbar_bus.Protocol.{Error, inspect_method}
use krossbar_bus.Endpoints.World.{InspectData}

-- What the tool prints and starts; the texts that tell of a failure are their own constructors.
pub data Shown (Json Stream : Type 0) : Type 0 where
  empty_input help wrong_number_of_call_arguments : Shown Json Stream
  wrong_number_of_subscribe_arguments : Shown Json Stream
  not_json failed_call : String → Shown Json Stream
  failed_subscribe failed_inspect : String → String → Shown Json Stream
  unknown_command : String → Shown Json Stream
  response : String → String → Json → Shown Json Stream
  inspected : InspectData → Shown Json Stream
  polling : Stream → String → Shown Json Stream

pub data Action (Json Stream : Type 0) : Type 0 where
  call : String → Json → Action Json Stream
  subscribe get : String → Action Json Stream
  show : Shown Json Stream → Action Json Stream

-- `serde_json`, and how the peer answers at this moment.
pub record Peer : Type 1 where
  pub Json : Type 0
  pub Stream : Type 0
  pub parse : String → Result Json String
  pub on_call : String → Json → Result Json Error
  pub on_subscribe : String → Result Stream Error
  pub on_inspect : Result InspectData Error
  pub print_error : Error → String

module _ (peer : Peer) where
  open peer use {Json, Stream, parse, on_call, on_subscribe, on_inspect, print_error}

  -- Whether the tool quits, and what it did; `none` is a panic.
  abbrev pub Done : Type 0
  Done = Option (Bool × List (Action Json Stream))

  unfoldable pub shows : Shown Json Stream → Done
  shows s = some (false, show s ∷ [])

  unfoldable pub on_call_response : String → Result Json Error → Shown Json Stream
  on_call_response name (ok r) = response "Method" name r
  on_call_response name (err e) = failed_call (print_error e)

  unfoldable pub call_parsed : String → Result Json String → Done
  unfolding shows on_call_response
  call_parsed name (ok json) =
      some (false, call name json ∷ show (on_call_response name (on_call name json)) ∷ [])
  call_parsed name (err e) = shows (not_json e)

  unfoldable pub call_command : List String → Done
  unfolding call_parsed shows
  call_command (word ∷ name ∷ argument ∷ []) = call_parsed name (parse argument)
  call_command words = shows wrong_number_of_call_arguments

  unfoldable pub on_stream : String → Result Stream Error → Shown Json Stream
  on_stream signal_name (ok stream) = polling stream signal_name
  on_stream signal_name (err e) = failed_subscribe signal_name (print_error e)

  unfoldable pub subscribe_command : List String → Done
  unfolding on_stream shows
  subscribe_command (word ∷ signal_name ∷ []) =
      some (
        false,
        subscribe signal_name ∷ show (on_stream signal_name (on_subscribe signal_name)) ∷ [],
      )
  subscribe_command words = shows wrong_number_of_subscribe_arguments

  unfoldable pub on_inspection : String → Result InspectData Error → Shown Json Stream
  on_inspection service_name (ok data') = inspected data'
  on_inspection service_name (err e) = failed_inspect service_name (print_error e)

  unfoldable pub inspect_command : String → Done
  unfolding on_inspection
  inspect_command service_name =
      some (false, get inspect_method ∷ show (on_inspection service_name on_inspect) ∷ [])

  -- The tests on `words[0]`; `none` is the panic of an index out of bounds.
  unfoldable pub first_word : String → List String → Option String → Done
  unfolding call_command subscribe_command inspect_command shows
  first_word service_name words none = none
  first_word service_name words (some word) =
      if text_eq word "call"
      then call_command words
      else if text_eq word "subscribe"
      then subscribe_command words
      else if text_eq word "inspect"
      then inspect_command service_name
      else shows (unknown_command word)

  unfoldable pub run_line : String → String → List String → Done
  unfolding first_word shows
  run_line service_name line words =
      if text_eq line "help"
      then shows help
      else if text_eq line "q"
      then some (true, [])
      else first_word service_name words (get_elem? words 0)

  -- The message on an empty input, which the code prints before it goes on.
  unfoldable pub complain : Bool → Done → Done
  complain true (some (quit, actions)) = some (quit, show empty_input ∷ actions)
  complain true none = none
  complain false done = done

  unfoldable pub handle_input_line : String → String → Done
  unfolding run_line complain
  handle_input_line service_name line =
      let words = split " " line in complain (length words == 0) (run_line service_name line words)

-- What `rl.readline` hands over.
pub data Readline : Type 0 where
  line : String → Readline
  interrupted eof : Readline
  failed : String → Readline

-- What the loop of `main` came to: it reads on, it quits, or it breaks with what it prints; or a panic.
pub data Session : Type 0 where
  reading quits panics : Session
  breaks : Readline → Session

module _ (peer : Peer) where
  open peer use {Json, Stream}

  -- The loop of `main`, with what was done so far.
  unfoldable pub run_session :
      String → List Readline → List (Action Json Stream) → Session × List (Action Json Stream)
  unfolding handle_input_line
  run_session service_name [] actions = (reading, actions)
  run_session service_name (line text ∷ inputs) actions =
      elim (handle_input_line peer service_name text) [
        | none ↦ (panics, actions)
        | some (true, more) ↦ (quits, actions ++ more)
        | some (false, more) ↦ run_session service_name inputs (actions ++ more)
      ]
  run_session service_name (other ∷ inputs) actions = (breaks other, actions)

-- What `start_polling_subcription` prints for the values of a stream.
pub data SignalLine (Json : Type 0) : Type 0 where
  signal_response : String → Json → SignalLine Json
  signal_error : String → Error → SignalLine Json

unfoldable pub start_polling_subcription :
    {Json : Type 0} → String → List (Result Json Error) → List (SignalLine Json)
start_polling_subcription signal_name [] = []
start_polling_subcription signal_name (ok json ∷ values) =
    signal_response signal_name json ∷ start_polling_subcription signal_name values
start_polling_subcription signal_name (err e ∷ values) = signal_error signal_name e ∷ []
