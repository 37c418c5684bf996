-- ===== src/Permissions/Execs.antt =====
-- Who may register under a name: `check_service_name_allowed` against a description of it.
use krossbar_bus.Common.{
  some_inj, ℕ, String, ◌≡◌, refl, sym, ap, subst, ◌∙◌, ◌↔◌, true, false, Option, none, some, Result,
  ok, err, >>=-eq-ok, ◌>>=◌, ◌≢◌,
}
use krossbar_bus.Protocol.{Error}
use krossbar_bus.Names.Print.{ok_inj}
use krossbar_bus.Permissions.{
  System, Permissions, Link, unreadable, not_text, path, read_allowed_execs,
  parse_service_file_json, or_not_allowed, require, match_exec, check_link,
  check_service_name_allowed,
}
use krossbar_bus.Permissions.Connections.{Decides}
use krossbar_bus.Permissions.Entries.{or_not_allowed-ok, require-ok}

same_path : (s t : String) → path s ≡ path t → t ≡ s
same_path s t h = cc

module _ (sys : System) where
  open sys use {Json, Glob, exe_link, has_key, index, as_str, new_glob, glob_matches}

  -- The service file of the name holds a glob under `exec`.
  pub record HasExec (self : Permissions) (service_name : String) (glob : Glob) : Type 0 where
    pub json : Json
    pub exec : String
    pub file : parse_service_file_json sys self service_name ≡ ok json
    pub found : has_key json "exec" ≡ true
    pub text : as_str (index json "exec") ≡ some exec
    pub parsed : new_glob exec ≡ some glob

  read_allowed_execs-HasExec :
      (self : Permissions) (service_name : String) (glob : Glob)
      → read_allowed_execs sys self service_name ≡ ok glob
      → HasExec self service_name glob
  unfolding read_allowed_execs
  read_allowed_execs-HasExec self service_name glob h =
      let (json, e, h₁) = >>=-eq-ok (parse_service_file_json sys self service_name) _ h in
      let (_, found, h₂) = >>=-eq-ok (require (has_key json "exec")) _ h₁ in
      let (exec, text, h₃) = >>=-eq-ok (or_not_allowed (as_str (index json "exec"))) _ h₂ in
      record {
        json = json;
        exec = exec;
        file = e;
        found = require-ok _ found;
        text = or_not_allowed-ok _ text;
        parsed = or_not_allowed-ok _ h₃;
      }

  HasExec-read_allowed_execs :
      (self : Permissions) (service_name : String) (glob : Glob)
      → HasExec self service_name glob
      → read_allowed_execs sys self service_name ≡ ok glob
  unfolding read_allowed_execs require or_not_allowed
  HasExec-read_allowed_execs self service_name glob h =
      rw (h.file, ◌>>=◌) (rw (h.found, ◌>>=◌) (rw (h.text, ◌>>=◌) (rw h.parsed)))

  -- A process may register: its id is known, its executable is a readable path, and the glob in the
  -- service file of the name matches the path.
  abbrev pub MayRegister : Permissions → Option ℕ → String → Type 0
  MayRegister self credentials service_name =
      (pid : ℕ) × (executable : String) × (glob : Glob) × (credentials ≡ some pid)
      × (exe_link pid ≡ path executable)
      × HasExec self service_name glob
      × (glob_matches glob executable ≡ true)

  match_exec_iff :
      (r : Result Glob Error) (executable : String)
      → (match_exec sys r executable ≡ true)
        ↔ ((glob : Glob) × (r ≡ ok glob) × (glob_matches glob executable ≡ true))
  unfolding match_exec
  match_exec_iff (err e) executable = (λ h. cc, λ (g, h, m). cc)
  match_exec_iff (ok glob) executable = (
    λ h. (glob, refl, h),
    λ (g, h, m). subst (λ x. glob_matches x executable ≡ true) (sym (ok_inj h)) m,
  )

  -- If the executable link of the peer, where its process is known, is not a path that is no text,
  -- then the check of a name does not panic and returns true exactly if the process may register.
  pub check_service_name_allowed-MayRegister :
      (self : Permissions) (credentials : Option ℕ) (service_name : String)
      → ((pid : ℕ) → credentials ≡ some pid → exe_link pid ≢ not_text)
      → Decides
          (MayRegister self credentials service_name)
          (check_service_name_allowed sys self credentials service_name)
  unfolding check_service_name_allowed
  check_service_name_allowed-MayRegister self none service_name text =
      (false, refl, (λ h. cc, λ (pid, x, g, h, _, _, _). cc))
  check_service_name_allowed-MayRegister self (some pid) service_name text = go (exe_link pid) refl
    where
      go :
          (l : Link)
          → exe_link pid ≡ l
          → Decides (MayRegister self (some pid) service_name) (check_link sys self l service_name)
      go unreadable e =
          (false, refl, (λ h. cc, λ (q, x, g, same, link, _, _). cc (e, link, some_inj same)))
      go not_text e = absurd (text pid refl e)
      go (path executable) e =
          let iff = match_exec_iff (read_allowed_execs sys self service_name) executable in
          (
            match_exec sys (read_allowed_execs sys self service_name) executable,
            refl,
            (
              λ h.
                  let (g, read, m) = iff.0 h in
                  (
                    pid,
                    executable,
                    g,
                    refl,
                    e,
                    read_allowed_execs-HasExec self service_name g read,
                    m,
                  ),
              λ (q, x, g, same, link, exec, m). iff.1 (
                g,
                HasExec-read_allowed_execs self service_name g exec,
                subst (λ y. glob_matches g y ≡ true)
                    (same_path executable x (sym e ∙ ap exe_link (some_inj same) ∙ link)) m,
              ),
            ),
          )
