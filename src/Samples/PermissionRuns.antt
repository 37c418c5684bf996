-- ===== src/Samples/PermissionRuns.antt =====
-- Runs of the theorems on permissions, on the small machine.
use krossbar_bus.Common.{
  String, ◌≡◌, refl, true, false, Option, some, none, List, [], ◌∷◌, ok, err, map, arith,
}
use krossbar_bus.Names.{NamePattern, any_name, section}
use krossbar_bus.Names.Print.{print}
use krossbar_bus.Protocol.{default_service_files_dir}
use krossbar_bus.Permissions.{
  Permissions, new, check_connection_allowed, check_service_name_allowed, check_service_exists,
  read_allowed_connections, parse_service_file_json,
}
use krossbar_bus.Permissions.Connections.{Decides, Permits, check_connection_allowed-Permits}
use krossbar_bus.Permissions.Execs.{MayRegister, check_service_name_allowed-MayRegister}
use krossbar_bus.Permissions.Entries.{read_allowed_connections-printed}
use krossbar_bus.Permissions.Dirs.{new-dirs, default_dir_first, allowed-exists}
use krossbar_bus.Samples.{
  machine, all_text, link_of, permissions, in_order_visits, FileValue, value_text, value_has_key,
  value_is_array, value_members, value_index,
}

allowed_client :
    check_connection_allowed (machine all_text) permissions "com.a.client" "com.b" ≡ some true
unfolding check_connection_allowed read_allowed_connections parse_service_file_json
    krossbar_bus.Permissions.read_entries krossbar_bus.Names.from_string
    krossbar_bus.Names.push_sections krossbar_bus.Common.split
    krossbar_bus.Names.section_from_string krossbar_bus.Common.contains_char
    krossbar_bus.Names.matches krossbar_bus.Names.has_empty krossbar_bus.Names.walk
    krossbar_bus.Names.visit_all krossbar_bus.Common.insert krossbar_bus.Common.contains
    krossbar_bus.Names.visit krossbar_bus.Names.extend
allowed_client = refl

refused_client :
    check_connection_allowed (machine all_text) permissions "com.a" "com.b" ≡ some false
unfolding check_connection_allowed read_allowed_connections parse_service_file_json
    krossbar_bus.Permissions.read_entries krossbar_bus.Names.from_string
    krossbar_bus.Names.push_sections krossbar_bus.Common.split
    krossbar_bus.Names.section_from_string krossbar_bus.Common.contains_char
    krossbar_bus.Names.matches krossbar_bus.Names.has_empty krossbar_bus.Names.walk
    krossbar_bus.Names.visit_all krossbar_bus.Common.insert krossbar_bus.Common.contains
    krossbar_bus.Names.visit krossbar_bus.Names.extend
refused_client = refl

executable_is_no_text :
    check_service_name_allowed (machine link_of) permissions (some 9) "com.a" ≡ none
unfolding check_service_name_allowed
executable_is_no_text = refl

check_connection_allowed-Permits_example :
    Decides
      (Permits (machine all_text) in_order_visits permissions "com.a.client" "com.b")
      (check_connection_allowed (machine all_text) permissions "com.a.client" "com.b")
check_connection_allowed-Permits_example =
    check_connection_allowed-Permits (machine all_text) in_order_visits permissions "com.a.client"
      "com.b"

check_service_name_allowed-MayRegister_example :
    Decides
      (MayRegister (machine all_text) permissions (some 7) "com.a")
      (check_service_name_allowed (machine all_text) permissions (some 7) "com.a")
check_service_name_allowed-MayRegister_example =
    check_service_name_allowed-MayRegister (machine all_text) permissions (some 7) "com.a"
      (λ pid e q. cc)

read_allowed_connections-printed_example :
    (json : FileValue) × (parse_service_file_json (machine all_text) permissions "com.b" ≡ ok json)
    × (value_has_key json "incoming_connections" ≡ true)
    × (value_is_array (value_index json "incoming_connections") ≡ true)
    × (map
          (λ p. some (print p))
          (record { section_patterns = section "com" ∷ any_name ∷ section "client" ∷ [] } ∷ [])
        ≡ map value_text (value_members (value_index json "incoming_connections")))
unfolding read_allowed_connections parse_service_file_json krossbar_bus.Permissions.read_entries
    krossbar_bus.Names.from_string krossbar_bus.Names.push_sections krossbar_bus.Common.split
    krossbar_bus.Names.section_from_string krossbar_bus.Common.contains_char
read_allowed_connections-printed_example =
    read_allowed_connections-printed (machine all_text) permissions "com.b"
      (record { section_patterns = section "com" ∷ any_name ∷ section "client" ∷ [] } ∷ []) refl

new-dirs_example :
    (new ("/opt/services" ∷ [])).service_files_dirs
    ≡ default_service_files_dir ∷ "/opt/services" ∷ []
new-dirs_example = new-dirs ("/opt/services" ∷ [])

etc_hides_others :
    parse_service_file_json (machine all_text) (new ("/opt/services" ∷ [])) "com.b"
    ≡ parse_service_file_json (machine all_text) (new []) "com.b"
etc_hides_others =
    default_dir_first (machine all_text) ("/opt/services" ∷ []) [] "com.b" (some "{}") refl

service_file_is_there : check_service_exists (machine all_text) permissions "com.b" ≡ true
unfolding check_connection_allowed read_allowed_connections parse_service_file_json
    krossbar_bus.Permissions.read_entries krossbar_bus.Names.from_string
    krossbar_bus.Names.push_sections krossbar_bus.Common.split
    krossbar_bus.Names.section_from_string krossbar_bus.Common.contains_char
    krossbar_bus.Names.matches krossbar_bus.Names.has_empty krossbar_bus.Names.walk
    krossbar_bus.Names.visit_all krossbar_bus.Common.insert krossbar_bus.Common.contains
    krossbar_bus.Names.visit krossbar_bus.Names.extend
service_file_is_there =
    allowed-exists (machine all_text) permissions "com.a.client" "com.b" (λ p f e. refl) refl refl
