-- ===== src/Protocol.antt =====
-- krossbar-bus-common/src: the names of the tools and the messages of the hub protocol, and the errors
-- that the hub and the services answer with.
use krossbar_bus.Common.{String, Bool}

-- krossbar-bus-common/src/lib.rs
abbrev pub monitor_service_name : String
monitor_service_name = "krossbar.monitor"

abbrev pub connect_service_name : String
connect_service_name = "krossbar.connect"

abbrev pub default_service_files_dir : String
default_service_files_dir = "/etc/krossbar/services/"

-- krossbar-bus-common/src/protocols/hub.rs
abbrev pub hub_connect_method : String
hub_connect_method = "connect"

abbrev pub hub_register_method : String
hub_register_method = "register"

-- `Message`
pub data HubMessage : Type 0 where
  register : String → HubMessage
  connect : String → Bool → HubMessage

-- krossbar-bus-common/src/protocols/inspections.rs
abbrev pub inspect_method : String
inspect_method = "inspect"

-- The variants of `krossbar_rpc::Error` that the program names.
pub data Error : Type 0 where
  internal_error params_type_error result_type_error : String → Error
  already_registered not_allowed service_not_found peer_disconnected no_endpoint : Error
