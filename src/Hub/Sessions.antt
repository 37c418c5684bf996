-- ===== src/Hub/Sessions.antt =====
-- krossbar-hub/src/hub.rs: the main loop of the hub, which accepts clients, runs their tasks (`Tasks`)
-- and removes those that are gone.
mod Tasks
unfoldable pub use Tasks.*
use Prim.Native.String.{◌++◌ as text_append}
use krossbar_bus.Common.{
  ℕ, suc, String, Option, none, some, List, [], ◌∷◌, ◌++◌, ◌==◌, if◌then◌else◌, Result, ok, err,
  ◌≡◌, and_then, text_eq,
}
use krossbar_bus.Common.Maps.{remove}
use krossbar_bus.Protocol.{
  Error, internal_error, HubMessage, register, connect, hub_register_method, hub_connect_method,
}
use krossbar_bus.Permissions.{Permissions}
use krossbar_bus.Permissions
use krossbar_bus.Rpc.{Body, Message, call}
use krossbar_bus.Hub.Context.{
  Request, Effect, respond, flush, Env, HubContext, resolve_pending_connections,
  handle_connection_request, handle_auth_request,
}

-- `Hub`: the tasks by their connections, with the number of the next connection.
pub record HubState : Type 0 where
  pub context : HubContext
  pub tasks : ℕ → Option Phase
  pub next_connection : ℕ

-- `Hub::new`
unfoldable pub new : List String → HubState
new additional_service_dirs = record {
  context = record {
    client_registry = [];
    pending_connections = [];
    permissions = Permissions.new additional_service_dirs;
  };
  tasks = λ c. none;
  next_connection = 0;
}

unfoldable pub set_task : (ℕ → Option Phase) → ℕ → Option Phase → ℕ → Option Phase
set_task tasks c phase d = if d == c then phase else tasks d

-- What the main loop and the tasks react to: a client connects (with credentials, or their lookup
-- fails), a connection hands over a message or its end, the sleep of a task ends, a task is done.
pub data Event (Bson : Type 0) : Type 0 where
  accepted : Option (Option ℕ) → Event Bson
  polled : ℕ → Option (Message Bson) → Event Bson
  woken reaped : ℕ → Event Bson

unfoldable pub settle : HubState → ℕ → Outcome → Option (HubState × List Effect)
unfolding set_task
settle h c none = none
settle h c (some (context, phase, effects)) =
    some (record h { context = context; tasks = set_task h.tasks c (some phase) }, effects)

unfoldable pub accept : HubState → Option (Option ℕ) → HubState
unfolding set_task
accept h none = h
accept h (some credentials) = record h {
  tasks = set_task h.tasks h.next_connection (some (authorizing credentials));
  next_connection = suc h.next_connection;
}

unfoldable pub forget_client : Option String → HubContext → HubContext
forget_client none context = context
forget_client (some service_name) context = record context {
  client_registry = remove service_name context.client_registry;
}

-- `self.tasks.next()` hands over a task that is done.
unfoldable pub reap : HubState → ℕ → Option Phase → HubState
unfolding forget_client set_task
reap h c (some (finished name)) = record h {
  context = forget_client name h.context;
  tasks = set_task h.tasks c none;
}
reap h c other = h

unfoldable pub wake : Env → HubState → ℕ → Option Phase → HubState × List Effect
unfolding set_task resolve_pending_connections
wake env h c (some (resolving service_name)) =
    let (context, effects) = resolve_pending_connections env service_name c h.context in
    (
      record h { context = context; tasks = set_task h.tasks c (some (running service_name)) },
      effects,
    )
wake env h c other = (h, [])

module _ (codec : Codec) where
  open codec use {Bson}

  unfoldable pub poll :
      Env → HubState → ℕ → Option (Message Bson) → Option Phase → Option (HubState × List Effect)
  unfolding authorize client_loop settle
  poll env h c m (some (authorizing credentials)) =
      settle h c (authorize codec env credentials c h.context m)
  poll env h c m (some (running service_name)) =
      settle h c (client_loop codec env service_name c h.context m)
  poll env h c m other = some (h, [])

  -- One step of the hub; `none` is a panic, which ends the process.
  unfoldable pub step : Env → HubState → Event Bson → Option (HubState × List Effect)
  unfolding accept poll wake reap
  step env h (accepted credentials) = some (accept h credentials, [])
  step env h (polled c m) = poll env h c m (h.tasks c)
  step env h (woken c) = some (wake env h c (h.tasks c))
  step env h (reaped c) = some (reap h c (h.tasks c), [])

  -- A history from `origin`: the steps that were taken, each with its machine, and all that was
  -- written.
  pub data Runs (origin : HubState) : List Effect → HubState → Type 0 where
    start : Runs origin [] origin
    then_step :
        {h h' : HubState} {es fs : List Effect} (env : Env) (event : Event Bson)
        → Runs origin es h
        → step env h event ≡ some (h', fs)
        → Runs origin (es ++ fs) h'
