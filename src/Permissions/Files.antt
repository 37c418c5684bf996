-- ===== src/Permissions/Files.antt =====
-- krossbar-hub/src/permissions.rs: the machine that the hub asks, the service directories, and the
-- search for a service file (`Permissions::new`, `Permissions::parse_service_file_json`).
use Prim.Native.Char.{code}
use Prim.Native.String.{◌++◌ as text_append}
use krossbar_bus.Common.{
  ℕ, String, Bool, false, ◌||◌, Option, none, some, List, [], ◌∷◌, ◌++◌, ◌==◌, if◌then◌else◌,
  Result, ok, err, text_eq,
}
use krossbar_bus.Protocol.{Error, not_allowed, service_not_found, default_service_files_dir}
use krossbar_bus.Names.{Order}

-- The target of the link `/proc/{pid}/exe`: it cannot be read, or it is a path, which may be no
-- UTF-8 text.
pub data Link : Type 0 where
  unreadable not_text : Link
  path : String → Link

-- What the hub asks of the machine and of the crates `json` and `glob`, at one moment.
pub record System : Type 1 where
  pub Json : Type 0
  pub Glob : Type 0
  -- `read_link("/proc/{pid}/exe")`
  pub exe_link : ℕ → Link
  -- `File::open`; the file that it opens has a text, or `read_to_string` fails on it.
  pub open_file : String → Option (Option String)
  -- `Path::exists`
  pub exists : String → Bool
  -- `json::parse`, and the methods of `JsonValue`
  pub parse_json : String → Option Json
  pub has_key : Json → String → Bool
  pub index : Json → String → Json
  pub as_str : Json → Option String
  pub is_array : Json → Bool
  pub members : Json → List Json
  -- `glob::Pattern::new` and `Pattern::matches`
  pub new_glob : String → Option Glob
  pub glob_matches : Glob → String → Bool
  -- The order in which a `HashSet` of the name matching is iterated.
  pub order : Order
  -- The feature `privileged-services`.
  pub privileged_services : Bool

-- `Permissions`
pub record Permissions : Type 0 where
  pub service_files_dirs : List String

unfoldable pub push_dirs : List String → List String → List String
push_dirs dirs [] = dirs
push_dirs dirs (dir ∷ rest) = push_dirs (dirs ++ dir ∷ []) rest

-- `Permissions::new`
unfoldable pub new : List String → Permissions
new additional_service_dirs = record {
  service_files_dirs = push_dirs (default_service_files_dir ∷ []) additional_service_dirs;
}

ends_with_slash : String → Bool
ends_with_slash String.[] = false
ends_with_slash (String.◌∷◌ c String.[]) = code c == b'/'
ends_with_slash (String.◌∷◌ c s) = ends_with_slash s

is_absolute : String → Bool
is_absolute String.[] = false
is_absolute (String.◌∷◌ c s) = code c == b'/'

-- `PathBuf::join`: an absolute path replaces the directory.
unfoldable pub path_join : String → String → String
unfolding is_absolute ends_with_slash
path_join dir file =
    if is_absolute file
    then file
    else if text_eq dir "" || ends_with_slash dir
    then text_append dir file
    else text_append dir (text_append "/" file)

-- `dir.join(format!("{}.service", service_name))`
unfoldable pub service_file_name : String → String → String
unfolding path_join
service_file_name dir service_name = path_join dir (text_append service_name ".service")

module _ (sys : System) where
  open sys use {Json, open_file, parse_json}

  -- The `find_map` over the directories: the first service file that opens.
  unfoldable pub find_service_file : List String → String → Option (Option String)
  find_service_file [] service_name = none
  find_service_file (dir ∷ dirs) service_name =
      elim (open_file (service_file_name dir service_name)) [
        | some file ↦ some file
        | none ↦ find_service_file dirs service_name
      ]

  unfoldable pub parse_text : Option Json → Result Json Error
  parse_text none = err not_allowed
  parse_text (some value) = ok value

  unfoldable pub read_and_parse : Option (Option String) → Result Json Error
  unfolding parse_text
  read_and_parse none = err service_not_found
  read_and_parse (some none) = err not_allowed
  read_and_parse (some (some service_file_string)) = parse_text (parse_json service_file_string)

  unfoldable pub parse_service_file_json : Permissions → String → Result Json Error
  unfolding find_service_file read_and_parse
  parse_service_file_json self service_name =
      read_and_parse (find_service_file self.service_files_dirs service_name)
