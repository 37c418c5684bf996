-- ===== src/Hub/Interleaved.antt =====
-- krossbar-hub/src/hub.rs and client.rs between two awaits: the tasks of the clients take turns while they
-- write, and wait for the lock of the context. The main loop runs the tasks only in its `select!`.
pub mod Abstract
pub mod Resumes
pub mod Refines
pub mod Lock
pub mod Sound
pub mod Stays
pub mod Allowed
pub mod Progress
pub mod Total
pub mod Stall
pub mod Outcomes
pub mod Due
pub mod Guarded
use krossbar_bus.Hub.Pool.{
  Stage, at, complaining, handling, serving, writing, Main, selecting, removing, Pool, Event,
  accepted, polled, woken, goes_on, reaped, main_goes_on, Access, unlocked, brief, kept, is_locked,
  is_kept, must_wait, register_access, connect_access, request_of, set_stage, write_on, move_to,
  hear,
}
use krossbar_bus.Common.{
  ℕ, suc, String, Bool, true, false, Option, none, some, List, [], ◌∷◌, ◌++◌, ◌≡◌, ◌==◌,
  if◌then◌else◌, Result, ok, err,
}
use krossbar_bus.Protocol.{HubMessage, register, connect, hub_register_method, hub_connect_method}
use krossbar_bus.Rpc.{Body, Message, call}
use krossbar_bus.Hub.Context.{Request, Effect, Env, HubContext, resolve_pending_connections}
use krossbar_bus.Hub.Sessions.{
  Codec, Phase, authorizing, resolving, running, finished, Outcome, check_endpoint,
  expected_registration, expected_connection, authorize_body, loop_body, forget_client,
}

module _ {Bson : Type 0} where
  -- `rpc.poll()` returns.
  unfoldable pub poll : ℕ → Option (Message Bson) → Option (Stage Bson) → Pool Bson → Pool Bson
  unfolding move_to hear check_endpoint request_of
  poll c none (some (at (authorizing credentials))) p = move_to c (at (finished none)) p
  poll c none (some (at (running name))) p = move_to c (at (finished (some name))) p
  poll c (some m) (some (at (authorizing credentials))) p =
      move_to c
        (hear (authorizing credentials) m (
          check_endpoint hub_register_method (expected_registration m.endpoint) m.endpoint
            (request_of c m)))
        p
  poll c (some m) (some (at (running name))) p =
      move_to c
        (hear (running name) m (
          check_endpoint hub_connect_method (expected_connection m.endpoint) m.endpoint
            (request_of c m)))
        p
  poll c m other p = p

  unfoldable pub wake : ℕ → Option (Stage Bson) → Pool Bson → Pool Bson
  unfolding move_to
  wake c (some (at (resolving name))) p = move_to c (serving name) p
  wake c other p = p

  -- `self.tasks.next()` hands over a task that is done.
  unfoldable pub reap : ℕ → Option (Stage Bson) → Pool Bson → Pool Bson
  unfolding set_stage
  reap c (some (at (finished (some name)))) p = record p { main = removing c name }
  reap c (some (at (finished none))) p = record p { stages = set_stage p.stages c none }
  reap c other p = p

  unfoldable pub accept : Option (Option ℕ) → Pool Bson → Pool Bson
  unfolding set_stage
  accept none p = p
  accept (some credentials) p = record p {
    stages = set_stage p.stages p.next_connection (some (at (authorizing credentials)));
    next_connection = suc p.next_connection;
  }

  -- The main loop removes the name of a task that is done, once the lock is free.
  unfoldable pub remove_name : ℕ → String → Pool Bson → Pool Bson
  unfolding is_locked forget_client set_stage
  remove_name c name p = if is_locked p.lock then p else record p {
    context = forget_client (some name) p.context;
    stages = set_stage p.stages c none;
    main = selecting;
  }

module _ (codec : Codec) where
  open codec use {Bson, from_bson}

  unfoldable pub access : Phase → Body Bson → Access
  unfolding register_access connect_access
  access (authorizing credentials) (call bson) = register_access (from_bson bson)
  access (running name) (call bson) = connect_access (from_bson bson)
  access phase body = unlocked

  unfoldable pub handle : Env → ℕ → Phase → Message Bson → HubContext → Outcome
  unfolding authorize_body loop_body request_of
  handle env c (authorizing credentials) m context =
      authorize_body codec env credentials context [] (request_of c m) m.body
  handle env c (running name) m context =
      loop_body codec env name context [] (request_of c m) m.body
  handle env c phase m context = some (context, phase, [])

  unfoldable pub handled : ℕ → Bool → Outcome → Pool Bson → Option (Pool Bson × List Effect)
  unfolding write_on
  handled c held none p = none
  handled c held (some (context, phase, effects)) p =
      some (write_on c held effects phase (record p { context = context }), [])

  unfoldable pub serve :
      ℕ → String → HubContext × List Effect → Pool Bson → Option (Pool Bson × List Effect)
  unfolding write_on
  serve c name (context, effects) p =
      some (write_on c true effects (running name) (record p { context = context }), [])

  -- A task goes on from where it is suspended, if what it waits for is there.
  unfoldable pub resume :
      Env → ℕ → Option (Stage Bson) → Pool Bson → Option (Pool Bson × List Effect)
  unfolding move_to must_wait access handled handle is_locked serve resolve_pending_connections
      write_on
  resume env c (some (complaining e phase m)) p = some (move_to c (handling phase m) p, e ∷ [])
  resume env c (some (handling phase m)) p =
      if must_wait (access phase m.body) p.lock
      then some (p, [])
      else handled c (is_kept (access phase m.body)) (handle env c phase m p.context) p
  resume env c (some (serving name)) p =
      if is_locked p.lock
      then some (p, [])
      else serve c name (resolve_pending_connections env name c p.context) p
  resume env c (some (writing held [] phase)) p = some (write_on c held [] phase p, [])
  resume env c (some (writing held (e ∷ es) phase)) p = some (write_on c held es phase p, e ∷ [])
  resume env c other p = some (p, [])

  -- One step; `none` is a panic. While the main loop waits for the lock, no task runs.
  unfoldable pub turn : Env → Main → Event Bson → Pool Bson → Option (Pool Bson × List Effect)
  unfolding accept poll wake reap resume remove_name
  turn env selecting (accepted credentials) p = some (accept credentials p, [])
  turn env selecting (polled c m) p = some (poll c m (p.stages c) p, [])
  turn env selecting (woken c) p = some (wake c (p.stages c) p, [])
  turn env selecting (goes_on c) p = resume env c (p.stages c) p
  turn env selecting (reaped c) p = some (reap c (p.stages c) p, [])
  turn env selecting main_goes_on p = some (p, [])
  turn env (removing c name) main_goes_on p = some (remove_name c name p, [])
  turn env (removing c name) other p = some (p, [])

  -- A history from `origin`: the steps that were taken, each with its machine, and what was written.
  pub data Turns (origin : Pool Bson) : List Effect → Pool Bson → Type 0 where
    begin : Turns origin [] origin
    then_turn :
        {p p' : Pool Bson} {es fs : List Effect} (env : Env) (event : Event Bson)
        → Turns origin es p
        → turn env p.main event p ≡ some (p', fs)
        → Turns origin (es ++ fs) p'
