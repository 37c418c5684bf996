-- ===== src/Samples.antt =====
-- A small machine, and a small service, on which the modules below run the program.
pub mod NameRuns
pub mod PermissionRuns
pub mod HubStates
pub mod HubRuns
pub mod InterleavedRuns
pub mod ErrorRuns
pub mod EndpointRuns
pub mod ClientRuns
pub mod ServiceRuns
pub mod ToolRuns
pub mod MonitorRuns
pub mod DemoRuns
pub mod BothRuns
pub mod ProgramRuns
use krossbar_bus.Common.{
  ℕ, String, Bool, true, false, Option, none, some, List, [], ◌∷◌, ok, refl, ◌==◌, text_eq,
  if◌then◌else◌,
}
use krossbar_bus.Names.{Order}
use krossbar_bus.Names.Decide.{Visits}
use krossbar_bus.Protocol.{HubMessage}
use krossbar_bus.Permissions.{System, Permissions, path, not_text, Link}
use krossbar_bus.Hub.Context.{Attempt, Env}
use krossbar_bus.Hub.Policies.{env_of}
use krossbar_bus.Hub.Sessions.{Codec}

abbrev pub in_order : Order
in_order k leaves = leaves

abbrev pub in_order_visits : Visits in_order
in_order_visits k xs j = refl

-- The values of one service file: `{"exec": "*", "incoming_connections": ["com.*.client"]}`.
pub data FileValue : Type 0 where
  file exec connections entry missing : FileValue

abbrev pub value_index : FileValue → String → FileValue
value_index file key =
    if text_eq key "exec"
    then exec
    else if text_eq key "incoming_connections"
    then connections
    else missing
value_index v key = missing

abbrev pub value_has_key : FileValue → String → Bool
value_has_key file key = if text_eq key "exec" then true else text_eq key "incoming_connections"
value_has_key v key = false

abbrev pub value_text : FileValue → Option String
value_text exec = some "*"
value_text entry = some "com.*.client"
value_text v = none

abbrev pub value_is_array : FileValue → Bool
value_is_array connections = true
value_is_array v = false

abbrev pub value_members : FileValue → List FileValue
value_members connections = entry ∷ []
value_members v = []

-- The process 9 has an executable whose path is no text.
abbrev pub link_of : ℕ → Link
link_of pid = if pid == 9 then not_text else path "/usr/bin/service"

abbrev pub machine : (ℕ → Link) → System
machine links = record {
  Json = FileValue;
  Glob = String;
  exe_link = links;
  open_file = λ p. some (some "{}");
  exists = λ p. true;
  parse_json = λ s. some file;
  has_key = value_has_key;
  index = value_index;
  as_str = value_text;
  is_array = value_is_array;
  members = value_members;
  new_glob = λ s. some s;
  glob_matches = λ g s. text_eq g "*";
  order = in_order;
  privileged_services = false;
}

abbrev pub all_text : ℕ → Link
all_text pid = path "/usr/bin/service"

abbrev pub permissions : Permissions
permissions = record { service_files_dirs = "/etc/krossbar/services/" ∷ [] }

abbrev pub attempts : ℕ → Attempt
attempts k = record { pair = ok (10, 11); write_fails = false }

abbrev pub env : Env
env = env_of (machine all_text) in_order_visits attempts

abbrev pub codec : Codec
codec = record { Bson = HubMessage; from_bson = λ m. ok m; debug = λ m. "message" }
