-- ===== src/Hub/Pool.antt =====
-- krossbar-hub/src/hub.rs and client.rs: where the tasks of the hub are suspended between two awaits, and
-- the lock of the context.
use krossbar_bus.Common.{
  ℕ, String, Bool, true, false, Option, none, some, List, [], ◌∷◌, ◌==◌, if◌then◌else◌, Result, ok,
  err,
}
use krossbar_bus.Protocol.{HubMessage, register, connect}
use krossbar_bus.Rpc.{Message}
use krossbar_bus.Hub.Context.{Request, Effect, HubContext}
use krossbar_bus.Hub.Sessions.{Phase}

-- Where a task is suspended: at the await of its phase; writing the error on a wrong endpoint, with the
-- message to go on with; about to handle a message; about to lock the context after its sleep; or
-- writing, with the lock or without, before the phase that comes.
pub data Stage (Bson : Type 0) : Type 0 where
  at : Phase → Stage Bson
  complaining : Effect → Phase → Message Bson → Stage Bson
  handling : Phase → Message Bson → Stage Bson
  serving : String → Stage Bson
  writing : Bool → List Effect → Phase → Stage Bson

-- Where the main loop is suspended: in its `select!`, or at the lock, to remove the name of a task that
-- is done.
pub data Main : Type 0 where
  selecting : Main
  removing : ℕ → String → Main

-- `Hub` with the lock of its context: the task that holds it, if one does between two awaits.
pub record Pool (Bson : Type 0) : Type 0 where
  pub context : HubContext
  pub stages : ℕ → Option (Stage Bson)
  pub next_connection : ℕ
  pub lock : Option ℕ
  pub main : Main

-- What may happen. `goes_on` is that what a task or the main loop waits for is there.
pub data Event (Bson : Type 0) : Type 0 where
  accepted : Option (Option ℕ) → Event Bson
  polled : ℕ → Option (Message Bson) → Event Bson
  woken goes_on reaped : ℕ → Event Bson
  main_goes_on : Event Bson

-- How a message is handled: without the lock; with the lock, which is free again before the answer is
-- written; with the lock, which is kept while the answers are written.
pub data Access : Type 0 where
  unlocked brief kept : Access

unfoldable pub is_locked : Option ℕ → Bool
is_locked none = false
is_locked (some c) = true

unfoldable pub is_kept : Access → Bool
is_kept unlocked = false
is_kept brief = false
is_kept kept = true

unfoldable pub must_wait : Access → Option ℕ → Bool
unfolding is_locked
must_wait unlocked lock = false
must_wait brief lock = is_locked lock
must_wait kept lock = is_locked lock

unfoldable pub register_access : Result HubMessage String → Access
register_access (ok (register name)) = brief
register_access (ok (connect name wait)) = unlocked
register_access (err e) = unlocked

unfoldable pub connect_access : Result HubMessage String → Access
connect_access (ok (connect name wait)) = kept
connect_access (ok (register name)) = unlocked
connect_access (err e) = unlocked

unfoldable pub request_of : {Bson : Type 0} → ℕ → Message Bson → Request
request_of c m = record { connection = c; message_id = m.message_id }

module _ {Bson : Type 0} where
  unfoldable pub set_stage :
      (ℕ → Option (Stage Bson)) → ℕ → Option (Stage Bson) → ℕ → Option (Stage Bson)
  set_stage stages c stage d = if d == c then stage else stages d

  -- A task goes to what it has to write, and gives back the lock when there is nothing left.
  unfoldable pub write_on : ℕ → Bool → List Effect → Phase → Pool Bson → Pool Bson
  unfolding set_stage
  write_on c held [] phase p = record p {
    stages = set_stage p.stages c (some (at phase));
    lock = if held then none else p.lock;
  }
  write_on c held (e ∷ es) phase p = record p {
    stages = set_stage p.stages c (some (writing held (e ∷ es) phase));
    lock = if held then some c else p.lock;
  }

  unfoldable pub move_to : ℕ → Stage Bson → Pool Bson → Pool Bson
  unfolding set_stage
  move_to c stage p = record p { stages = set_stage p.stages c (some stage) }

  -- After `check_endpoint`.
  unfoldable pub hear : Phase → Message Bson → List Effect → Stage Bson
  hear phase m [] = handling phase m
  hear phase m (e ∷ es) = complaining e phase m
