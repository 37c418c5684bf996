-- ===== src/Permissions/Dirs.antt =====
-- The service directories: the default one comes first, and a file there hides all others of its name.
use krossbar_bus.Common.{
  String, ◌≡◌, sym, ◌∙◌, inl, inr, true, false, Option, none, some, List, [], ◌∷◌, ◌++◌, append-nil,
  append_assoc, arith, err, ◌>>=◌, Option-cases,
}
use krossbar_bus.Protocol.{service_not_found, default_service_files_dir}
use krossbar_bus.Permissions.{
  System, Permissions, new, push_dirs, find_service_file, service_file_name, read_and_parse,
  parse_service_file_json, check_service_exists, any_exists, check_connection_allowed,
  is_previleged_service, read_allowed_connections,
}

push_dirs-append : (dirs rest : List String) → push_dirs dirs rest ≡ dirs ++ rest
unfolding push_dirs
push_dirs-append dirs [] = sym (append-nil dirs)
push_dirs-append dirs (dir ∷ rest) =
    push_dirs-append (dirs ++ dir ∷ []) rest ∙ append_assoc dirs (dir ∷ []) rest

-- The default directory is searched first, then the additional ones in their order.
pub new-dirs :
    (dirs : List String) → (new dirs).service_files_dirs ≡ default_service_files_dir ∷ dirs
unfolding new
new-dirs dirs = push_dirs-append (default_service_files_dir ∷ []) dirs

module _ (sys : System) where
  open sys use {Json, open_file, exists}

  -- If a service file opens in the default directory, then the additional directories have no say
  -- in what the service file of that name holds.
  pub default_dir_first :
      (dirs dirs' : List String) (service_name : String) (file : Option String)
      → open_file (service_file_name default_service_files_dir service_name) ≡ some file
      → parse_service_file_json sys (new dirs) service_name
        ≡ parse_service_file_json sys (new dirs') service_name
  unfolding parse_service_file_json
  default_dir_first dirs dirs' service_name file e = same dirs ∙ sym (same dirs')
    where
      same :
          (ds : List String)
          → read_and_parse sys (find_service_file sys (new ds).service_files_dirs service_name)
            ≡ read_and_parse sys (some file)
      same ds = rw new-dirs (rw (e, find_service_file))

  find-any_exists :
      (dirs : List String) (service_name : String) (file : Option String)
      → ((p : String) (f : Option String) → open_file p ≡ some f → exists p ≡ true)
      → find_service_file sys dirs service_name ≡ some file
      → any_exists sys dirs service_name ≡ true
  unfolding find_service_file any_exists
  find-any_exists [] service_name file opens h = cc
  find-any_exists (dir ∷ dirs) service_name file opens h =
      elim (Option-cases (open_file (service_file_name dir service_name))) [
        | inl e ↦
            let later =
              find-any_exists dirs service_name file opens (rw (e, find_service_file) at h) in
            ground (arith, later)
        | inr (f, e) ↦ rw (opens _ f e)
      ]

  no_file :
      (self : Permissions) (target : String)
      → find_service_file sys self.service_files_dirs target ≡ none
      → read_allowed_connections sys self target ≡ err service_not_found
  unfolding read_allowed_connections parse_service_file_json
  no_file self target e = rw (e, ◌>>=◌)

  -- Where a file that opens exists: if a client that is not privileged may connect to a service,
  -- then the check for the service file of that service, which guards waiting for it, succeeds.
  pub allowed-exists :
      (self : Permissions) (client target : String)
      → ((p : String) (f : Option String) → open_file p ≡ some f → exists p ≡ true)
      → is_previleged_service sys client ≡ false
      → check_connection_allowed sys self client target ≡ some true
      → check_service_exists sys self target ≡ true
  unfolding check_connection_allowed check_service_exists
  allowed-exists self client target opens plain allowed =
      elim (Option-cases (find_service_file sys self.service_files_dirs target)) [
        | inl e ↦ cc (rw (plain, no_file self target e) at allowed)
        | inr (f, e) ↦ find-any_exists self.service_files_dirs target f opens e
      ]
