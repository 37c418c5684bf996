-- ===== src/Tools/Monitor.antt =====
-- krossbar-monitor/src/main.rs: the line that the monitor prints for a message.
use Prim.Native.String.{◌++◌ as text_append}
use krossbar_bus.Common.{
  ℕ, String, Bool, true, false, Option, none, some, List, [], ◌∷◌, Result, ok, err, split,
  if◌then◌else◌,
}
use krossbar_bus.Protocol.{Error}

-- The colours of the crate `colored`, the JSON that `bson` prints, how the standard library prints
-- numbers, and errors.
pub record Style (Bson : Type 0) : Type 0 where
  pub red : String → String
  pub green : String → String
  pub yellow : String → String
  pub blue : String → String
  pub purple : String → String
  pub magenta : String → String
  pub white : String → String
  pub extjson : Bson → String
  pub print_number : ℕ → String
  pub print_error : Error → String

-- `krossbar_rpc::RpcData`, with the variants and fields that the monitor prints.
pub data RpcData (Bson : Type 0) : Type 0 where
  message : String → Bson → RpcData Bson
  call : String → Bson → RpcData Bson
  subscription : String → RpcData Bson
  connection_request : String → String → RpcData Bson
  response : Result Bson Error → RpcData Bson
  fd_response : Result Bson Error → RpcData Bson

-- `krossbar_rpc::monitor::Direction`
pub data Direction : Type 0 where
  incoming outgoing : Direction

pub record MonitorMessage (Bson : Type 0) : Type 0 where
  pub direction : Direction
  pub peer_name : String
  pub id : ℕ
  pub data' : RpcData Bson

-- The texts one after the other, as `format!` does it.
unfoldable pub concat : List String → String
concat [] = ""
concat (s ∷ ss) = text_append s (concat ss)

-- The first character of a section, with a dot, in front of what the other sections add; `none` is the
-- panic on an empty section.
unfoldable pub push_first : String → Option String → Option String
push_first String.[] rest = none
push_first (String.◌∷◌ c s) none = none
push_first (String.◌∷◌ c s) (some r) = some (String.◌∷◌ c (String.◌∷◌ "." r))

-- The loop of `short_name`, over the sections.
unfoldable pub push_short : (String → String) → Bool → List String → Option String
unfolding push_first
push_short red target_service [] = some ""
push_short red target_service (section ∷ []) =
    some (if target_service then red section else section)
push_short red target_service (section ∷ next ∷ sections) =
    push_first section (push_short red target_service (next ∷ sections))

unfoldable pub short_name : (String → String) → String → Bool → Option String
unfolding push_short
short_name red name target_service = push_short red target_service (split "." name)

module _ {Bson : Type 0} (style : Style Bson) where
  open style use {
    red, green, yellow, blue, purple, magenta, white, extjson, print_number, print_error,
  }

  unfoldable pub format_result : Result Bson Error → String
  unfolding concat
  format_result (ok body) = concat (green "OK" ∷ " " ∷ extjson body ∷ [])
  format_result (err e) = concat (red "ERR" ∷ " " ∷ print_error e ∷ [])

  unfoldable pub format_data : RpcData Bson → String
  unfolding concat format_result
  format_data (message endpoint body) =
      concat (yellow "Message" ∷ "(" ∷ extjson body ∷ ") -> " ∷ white endpoint ∷ [])
  format_data (call endpoint params) =
      concat (blue "Call" ∷ "(" ∷ extjson params ∷ ") -> " ∷ white endpoint ∷ [])
  format_data (subscription endpoint) =
      concat (purple "Subscription" ∷ " -> " ∷ white endpoint ∷ [])
  format_data (connection_request client_name target_name) =
      concat (magenta "Connection" ∷ " " ∷ client_name ∷ " -> " ∷ target_name ∷ [])
  format_data (response r) = concat (format_result r ∷ " <- " ∷ red "Response" ∷ [])
  format_data (fd_response r) = concat (format_result r ∷ " <- " ∷ red "FD response" ∷ [])

  unfoldable pub direction_symbol : Direction → String
  direction_symbol incoming = green "<<<"
  direction_symbol outgoing = blue ">>>"

  unfoldable pub self_is_target : Direction → Bool
  self_is_target incoming = true
  self_is_target outgoing = false

  -- The line, once the two names are short.
  unfoldable pub print_line : MonitorMessage Bson → Option String → Option String → Option String
  unfolding concat format_data direction_symbol
  print_line m none peer = none
  print_line m (some self) none = none
  print_line m (some self) (some peer) = some (
      concat (
        self
        ∷ " "
        ∷ direction_symbol m.direction
        ∷ " "
        ∷ peer
        ∷ ": "
        ∷ yellow "["
        ∷ print_number m.id
        ∷ yellow "]"
        ∷ " "
        ∷ format_data m.data'
        ∷ []))

  -- What `handle_message` prints; `none` is a panic.
  unfoldable pub handle_message : String → MonitorMessage Bson → Option String
  unfolding print_line short_name self_is_target
  handle_message service_name m =
      let target = self_is_target m.direction in
      print_line m (short_name red service_name target)
        (short_name red m.peer_name (if target then false else true))
