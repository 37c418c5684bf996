-- ===== src/Hub/Steps.antt =====
-- Every step of the hub keeps the registry and the tasks in agreement, so every history does.
use krossbar_bus.Common.{ℕ, ◌≡◌, refl, subst, Option, none, some, List}
use krossbar_bus.Rpc.{Message}
use krossbar_bus.Hub.Context.{Effect, Env}
use krossbar_bus.Hub.Sessions.{
  Codec, Phase, authorizing, resolving, running, finished, Outcome, authorize, client_loop,
  HubState, Event, accepted, polled, woken, reaped, settle, reap, wake, poll, step, Runs, start,
  then_step,
}
use krossbar_bus.Hub.Moves.{Moves, serves, authorize-Moves, client_loop-Moves}
use krossbar_bus.Hub.Registry.{Inv}
use krossbar_bus.Hub.Invariant.{Move-Inv, reap-Inv, accept-Inv}

-- What a step leaves, if it is no panic.
abbrev AllInv : Option (HubState × List Effect) → Type 0
AllInv none = Unit {0}
AllInv (some (h, effects)) = Inv h

module _ (codec : Codec) where
  open codec use {Bson}

  settle-Inv :
      (h : HubState) (c : ℕ) (phase : Phase) (o : Outcome)
      → Inv h
      → h.tasks c ≡ some phase
      → Moves h.context c phase o
      → AllInv (settle h c o)
  unfolding settle
  settle-Inv h c phase none v at m = tt
  settle-Inv h c phase (some (context, phase', effects)) v at m =
      Move-Inv h v c phase phase' context at m

  poll-Inv :
      (env : Env) (h : HubState) (c : ℕ) (m : Option (Message Bson)) (o : Option Phase)
      → Inv h
      → h.tasks c ≡ o
      → AllInv (poll codec env h c m o)
  unfolding poll
  poll-Inv env h c m (some (authorizing credentials)) v at =
      settle-Inv h c _ (authorize codec env credentials c h.context m) v at
        (authorize-Moves codec env credentials c h.context m)
  poll-Inv env h c m (some (running n)) v at =
      settle-Inv h c _ (client_loop codec env n c h.context m) v at
        (client_loop-Moves codec env n c h.context m)
  poll-Inv env h c m (some (resolving n)) v at = v
  poll-Inv env h c m (some (finished n)) v at = v
  poll-Inv env h c m none v at = v

  wake-Inv :
      (env : Env) (h : HubState) (c : ℕ) (o : Option Phase)
      → Inv h
      → h.tasks c ≡ o
      → Inv (wake env h c o).0
  unfolding wake
  wake-Inv env h c (some (resolving n)) v at = Move-Inv h v c _ _ _ at (serves n)
  wake-Inv env h c (some (authorizing credentials)) v at = v
  wake-Inv env h c (some (running n)) v at = v
  wake-Inv env h c (some (finished n)) v at = v
  wake-Inv env h c none v at = v

  reap_any-Inv :
      (h : HubState) (c : ℕ) (o : Option Phase) → Inv h → h.tasks c ≡ o → Inv (reap h c o)
  unfolding reap
  reap_any-Inv h c (some (finished n)) v at = reap-Inv h v c n at
  reap_any-Inv h c (some (authorizing credentials)) v at = v
  reap_any-Inv h c (some (resolving n)) v at = v
  reap_any-Inv h c (some (running n)) v at = v
  reap_any-Inv h c none v at = v

  step-AllInv :
      (env : Env) (h : HubState) (event : Event Bson) → Inv h → AllInv (step codec env h event)
  unfolding step
  step-AllInv env h (accepted credentials) v = accept-Inv h v credentials
  step-AllInv env h (polled c m) v = poll-Inv env h c m (h.tasks c) v refl
  step-AllInv env h (woken c) v = wake-Inv env h c (h.tasks c) v refl
  step-AllInv env h (reaped c) v = reap_any-Inv h c (h.tasks c) v refl

  -- From a state in which they agree, every step of the hub that is no panic keeps the registry
  -- and the tasks in agreement: a registered name is held by the task of its connection, a name
  -- that a task holds is registered for its connection, clients wait only for names that no served
  -- task holds, and the connections to come are unused.
  pub step-Inv :
      (env : Env) (h h' : HubState) (event : Event Bson) (effects : List Effect)
      → Inv h
      → step codec env h event ≡ some (h', effects)
      → Inv h'
  step-Inv env h h' event effects v e = subst AllInv e (step-AllInv env h event v)

  -- After any history from a state in which the registry and the tasks agree, they agree: a
  -- registered name is held by the task of its connection, a name that a task holds is registered
  -- for its connection, clients wait only for names that no served task holds, and the connections
  -- to come are unused.
  pub Runs-Inv :
      {origin h : HubState} {effects : List Effect}
      → Inv origin
      → Runs codec origin effects h
      → Inv h
  Runs-Inv v start = v
  Runs-Inv v (then_step env event r e) = step-Inv env _ _ event _ (Runs-Inv v r) e
