-- ===== src/Permissions.antt =====
-- krossbar-hub/src/permissions.rs: what the service files allow. The machine and the search for a
-- service file are in `Files`; the modules below have the proofs.
mod Files
pub mod Connections
pub mod Entries
pub mod Execs
pub mod Dirs
unfoldable pub use Files.*
use krossbar_bus.Common.{
  ℕ, String, Bool, true, false, ◌||◌, Option, none, some, List, [], ◌∷◌, ◌++◌, if◌then◌else◌,
  Result, ok, err, ◌>>=◌, text_eq,
}
use krossbar_bus.Protocol.{Error, not_allowed, monitor_service_name, connect_service_name}
use krossbar_bus.Names.{NamePattern, NameError, from_string, matches}

-- The `match` on the outcome for one pattern, given the outcome of the rest of the loop.
unfoldable pub on_match : Option (Result Bool NameError) → Option Bool → Option Bool
on_match none rest = none
on_match (some (ok true)) rest = some true
on_match (some (ok false)) rest = rest
on_match (some (err e)) rest = some false

unfoldable pub or_not_allowed {ℓ} : {A : Type ℓ} → Option A → Result A Error
or_not_allowed none = err not_allowed
or_not_allowed (some a) = ok a

unfoldable pub require : Bool → Result (Unit {0}) Error
require true = ok tt
require false = err not_allowed

unfoldable pub or_denied : Result NamePattern NameError → Result NamePattern Error
or_denied (ok pattern') = ok pattern'
or_denied (err e) = err not_allowed

module _ (sys : System) where
  open sys use {
    Json, Glob, exe_link, exists, has_key, index, as_str, is_array, members, new_glob, glob_matches,
    order, privileged_services,
  }

  unfoldable pub read_allowed_execs : Permissions → String → Result Glob Error
  unfolding or_not_allowed require
  read_allowed_execs self service_name = do
    json ← parse_service_file_json sys self service_name
    found ← require (has_key json "exec")
    allowed_execs ← or_not_allowed (as_str (index json "exec"))
    or_not_allowed (new_glob allowed_execs)

  -- The loop over the entries, with the patterns pushed so far.
  unfoldable pub read_entries : List NamePattern → List Json → Result (List NamePattern) Error
  unfolding or_not_allowed or_denied
  read_entries result [] = ok result
  read_entries result (connection_entry ∷ entries) = do
    connection_string ← or_not_allowed (as_str connection_entry)
    pattern' ← or_denied (from_string connection_string)
    read_entries (result ++ pattern' ∷ []) entries

  unfoldable pub read_allowed_connections : Permissions → String → Result (List NamePattern) Error
  unfolding require
  read_allowed_connections self service_name = do
    json ← parse_service_file_json sys self service_name
    found ← require (has_key json "incoming_connections")
    array ← require (is_array (index json "incoming_connections"))
    read_entries [] (members (index json "incoming_connections"))

  unfoldable pub is_previleged_service : String → Bool
  is_previleged_service service_name =
      if privileged_services
      then text_eq service_name monitor_service_name || text_eq service_name connect_service_name
      else false

  -- The loop over the patterns; `none` is a panic.
  unfoldable pub match_patterns : String → List NamePattern → Option Bool
  unfolding on_match
  match_patterns client_service [] = some false
  match_patterns client_service (pattern' ∷ patterns) =
      let rest = match_patterns client_service patterns in
      on_match (matches order pattern' client_service) rest

  unfoldable pub match_allowed : String → Result (List NamePattern) Error → Option Bool
  unfolding match_patterns
  match_allowed client_service (ok patterns) = match_patterns client_service patterns
  match_allowed client_service (err e) = some false

  -- `none` is a panic.
  unfoldable pub check_connection_allowed : Permissions → String → String → Option Bool
  unfolding is_previleged_service match_allowed
  check_connection_allowed self client_service target_service =
      if is_previleged_service client_service
      then some true
      else match_allowed client_service (read_allowed_connections self target_service)

  unfoldable pub any_exists : List String → String → Bool
  any_exists [] target_service = false
  any_exists (dir ∷ dirs) target_service =
      if exists (service_file_name dir target_service) then true else any_exists dirs target_service

  unfoldable pub check_service_exists : Permissions → String → Bool
  unfolding any_exists
  check_service_exists self target_service = any_exists self.service_files_dirs target_service

  unfoldable pub match_exec : Result Glob Error → String → Bool
  match_exec (err e) service_exec = false
  match_exec (ok exec_pattern) service_exec = glob_matches exec_pattern service_exec

  unfoldable pub check_link : Permissions → Link → String → Option Bool
  unfolding match_exec
  check_link self unreadable service_name = some false
  check_link self not_text service_name = none
  check_link self (path service_exec) service_name =
      some (match_exec (read_allowed_execs self service_name) service_exec)

  -- The credentials are the process id of the peer, where it is known. `none` is the panic of
  -- `to_str().unwrap()` on a path that is no text.
  unfoldable pub check_service_name_allowed : Permissions → Option ℕ → String → Option Bool
  unfolding check_link
  check_service_name_allowed self none service_name = some false
  check_service_name_allowed self (some pid) service_name =
      check_link self (exe_link pid) service_name
