-- ===== src/Tools/Texts.antt =====
-- krossbar-connect/src/main.rs and helper.rs: the texts that the tool prints.
use krossbar_bus.Common.{String, List, [], ◌∷◌}
use krossbar_bus.Tools.Monitor.{concat}
use krossbar_bus.Tools.Inspect.{Bright, print}
use krossbar_bus.Tools.Commands.{
  Peer, Shown, SignalLine, empty_input, help, wrong_number_of_call_arguments, not_json, failed_call,
  wrong_number_of_subscribe_arguments, failed_subscribe, failed_inspect, unknown_command, response,
  inspected, polling, signal_response, signal_error,
}

-- A line on the standard output, or on the error output.
pub data Line : Type 0 where
  out error : String → Line

-- `Helper`
pub record Helper : Type 0 where
  pub current_input : String

-- `Helper::new`
unfoldable pub new : Helper
new = record { current_input = "" }

-- `Helper::hint`, which gives no hint.
unfoldable pub hint : String → Helper → Helper
hint line helper = record helper { current_input = line }

unfoldable pub get_user_input : Helper → String
get_user_input helper = helper.current_input

module _ (bright : Bright) where
  open bright use {bright_blue, bright_yellow, bright_green}

  unfoldable pub print_help : List Line
  unfolding concat
  print_help =
      out (
        concat
          ("\t" ∷ bright_blue "inspect" ∷ " Inspect registered methods, signals, and states" ∷ []))
      ∷ out (
          concat (
            "\t"
            ∷ bright_yellow "call"
            ∷ " {method_name} {argument} Call method with the given argument. Argument should be a JSON,"
            ∷ []))
      ∷ out
          "\t\twhich deserializes into the method argument type (use tracing logs and `krossbar-monitor`"
      ∷ out "\t\tto find how method parameters serialize)"
      ∷ out (
          concat ("\t" ∷ bright_yellow "subscribe" ∷ " {signal_name} Subscribe on the signal" ∷ []))
      ∷ out (concat ("\t" ∷ bright_blue "q" ∷ " Quit" ∷ []))
      ∷ []

  unfoldable pub format_response : String → String → String → String
  unfolding concat
  format_response endpoint_type endpoint_name json =
      concat
        (bright_blue ">" ∷ " " ∷ endpoint_type ∷ " '" ∷ endpoint_name ∷ "' response: " ∷ json ∷ [])

  -- The current line is cleared, the text takes its place, and the input of the user comes back below.
  unfoldable pub insert_on_previous_line : String → Helper → String
  unfolding concat get_user_input
  insert_on_previous_line string helper = concat (
      "\u{1b}[2K\u{1b}[s\u{1b}[F\r\n"
      ∷ string
      ∷ "\n"
      ∷ bright_green ">> "
      ∷ get_user_input helper
      ∷ "\u{1b}[u"
      ∷ [])

  module _ (peer : Peer) (print_json : peer.Json → String) where
    open peer use {Json, Stream, print_error}

    -- What a line of input makes the tool print.
    unfoldable pub text : Shown Json Stream → List Line
    unfolding print_help format_response concat print
    text empty_input = error "Empty input. Type 'help' to get list of commands" ∷ []
    text help = print_help
    text wrong_number_of_call_arguments =
        error "Ivalid number of 'call' arguments given. Use 'help' to see command syntax" ∷ []
    text (not_json e) =
        error (concat ("Failed to parse 'call' argument: " ∷ e ∷ ". Should be a valid JSON" ∷ []))
        ∷ []
    text (failed_call e) = error (concat ("Failed to make a call: " ∷ e ∷ [])) ∷ []
    text wrong_number_of_subscribe_arguments =
        error
          "Ivalid number of 'subscribe' arguments given: no signal name given. Use 'help' to see command syntax"
        ∷ []
    text (failed_subscribe signal_name e) =
        error (concat ("Failed to subscribe to the signal '" ∷ signal_name ∷ "': " ∷ e ∷ [])) ∷ []
    text (failed_inspect service_name e) =
        error (concat ("Failed to inspect service '" ∷ service_name ∷ "': " ∷ e ∷ [])) ∷ []
    text (unknown_command word) =
        error (concat ("Unknown command '" ∷ word ∷ "'. Type 'help' to get list of commands" ∷ []))
        ∷ []
    text (response endpoint_type endpoint_name json) =
        out (format_response endpoint_type endpoint_name (print_json json)) ∷ []
    text (inspected data') = out (print bright data') ∷ []
    text (polling stream signal_name) = []

    unfoldable pub signal_text : Helper → SignalLine Json → String
    unfolding insert_on_previous_line format_response concat
    signal_text helper (signal_response signal_name json) =
        insert_on_previous_line (format_response "Signal" signal_name (print_json json)) helper
    signal_text helper (signal_error signal_name e) =
        insert_on_previous_line
          (concat ("Error subscribing to a signal '" ∷ signal_name ∷ "': " ∷ print_error e ∷ []))
          helper
