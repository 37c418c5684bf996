-- ===== src/Hub/Program.antt =====
-- krossbar-hub/src/main.rs, and krossbar-hub/src/hub.rs around its main loop: how the hub starts, and
-- how it ends.
use krossbar_bus.Common.{
  String, Bool, true, false, Option, none, some, List, [], ◌∷◌, ◌++◌, Result, ok, err,
  if◌then◌else◌, and_then,
}
use krossbar_bus.Hub.Context.{Effect, Env}
use krossbar_bus.Hub.Sessions.{Codec, HubState, new, Event, step}

-- The file of the hub's socket, as the machine has it: `UnixListener::bind`, `fs::remove_file`, and
-- `fs::set_permissions` with `none` for its error.
pub record SocketFile : Type 1 where
  pub State : Type 0
  pub bind : State → Result State String
  pub remove_file : State → State
  pub set_permissions : State → Option State

module _ (socket : SocketFile) where
  open socket use {State, bind, remove_file, set_permissions}

  unfoldable pub bind_again : Result State String → Option State
  bind_again (ok s) = some s
  bind_again (err e) = none

  -- The start of `Hub::run`; `none` is a panic.
  unfoldable pub bind_or_replace : State → Result State String → Option State
  unfolding bind_again
  bind_or_replace s (ok s2) = some s2
  bind_or_replace s (err e) = bind_again (bind (remove_file s))

  unfoldable pub listen : State → Option State
  unfolding bind_or_replace
  listen s = and_then (bind_or_replace s (bind s)) set_permissions

-- What the loop of the hub comes to: a panic, the next event, or ctrl-c.
pub data Served : Type 0 where
  panicked : Served
  ongoing stopped : HubState → List Effect → Served

-- How the program ends, or stands: an additional directory is missing, it panics because it cannot listen
-- on the socket, or it served, and left the socket file as it is.
pub data Exit (S : Type 0) : Type 0 where
  missing_directory failed_to_listen : Exit S
  served : Served → S → Exit S

module _ (codec : Codec) where
  open codec use {Bson}

  pub data Next : Type 0 where
    happens : Env → Event Bson → Next
    ctrl_c : Next

  -- The loop of `Hub::run`, with what was written so far.
  unfoldable pub serve : List Next → HubState → List Effect → Served
  unfolding step
  serve [] h written = ongoing h written
  serve (ctrl_c ∷ nexts) h written = stopped h written
  serve (happens env event ∷ nexts) h written = elim (step codec env h event) [
    | none ↦ panicked
    | some (h2, effects) ↦ serve nexts h2 (written ++ effects)
  ]

  module _ (socket : SocketFile) where
    -- The end of `Hub::run`: the socket file is removed after ctrl-c.
    unfoldable pub clean_up : socket.State → Served → Exit socket.State
    clean_up s panicked = served panicked s
    clean_up s (ongoing h written) = served (ongoing h written) s
    clean_up s (stopped h written) = served (stopped h written) (socket.remove_file s)

    unfoldable pub serve_on : List Next → HubState → Option socket.State → Exit socket.State
    unfolding clean_up serve
    serve_on nexts h none = failed_to_listen
    serve_on nexts h (some s) = clean_up s (serve nexts h [])

    -- `Hub::run`
    unfoldable pub run : List Next → HubState → socket.State → Exit socket.State
    unfolding serve_on listen
    run nexts h s = serve_on nexts h (listen socket s)

    unfoldable pub all_exist : (String → Bool) → List String → Bool
    all_exist exists [] = true
    all_exist exists (dir ∷ dirs) = if exists dir then all_exist exists dirs else false

    -- `main`, with the additional service directories of the arguments.
    unfoldable pub main :
        (String → Bool) → List String → List Next → socket.State → Exit socket.State
    unfolding all_exist run new
    main exists dirs nexts s =
        if all_exist exists dirs then run nexts (new dirs) s else missing_directory
