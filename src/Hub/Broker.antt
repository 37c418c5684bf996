-- ===== src/Hub/Broker.antt =====
-- krossbar-hub/src/client.rs and hub.rs, compared with a broker of names, where requests wait for
-- names that nobody has, without tasks and messages.
use krossbar_bus.Common.{
  ℕ, String, ◌≡◌, refl, sym, subst, Option, none, some, List, [], ◌∷◌, ◌++◌, if◌then◌else◌, arith,
  text_eq,
}
use krossbar_bus.Common.Maps.{get, get-insert, get-remove}
use krossbar_bus.Rpc.{Message}
use krossbar_bus.Hub.Context.{Request, Effect, Env, HubContext, waiters_of, push_waiter}
use krossbar_bus.Hub.Sessions.{
  Codec, Phase, authorizing, resolving, running, finished, Outcome, authorize, client_loop,
  HubState, new, Event, accepted, polled, woken, reaped, settle, accept, reap, wake, poll, step,
  Runs,
}
use krossbar_bus.Hub.Moves.{
  Move, Moves, refused, takes, serves, stays, queues, ends, authorize-Moves, client_loop-Moves,
}
use krossbar_bus.Hub.Registry.{Holds, Inv, new-Inv}
use krossbar_bus.Hub.Steps.{Runs-Inv}

-- Who has a name, and which requests wait for it, with the names of those who ask.
pub record View : Type 0 where
  pub who : String → Option ℕ
  pub waiting : String → List (String × Request)

unfoldable pub view : HubContext → View
view context = record {
  who = λ n. get n context.client_registry;
  waiting = λ n. waiters_of (get n context.pending_connections);
}

-- A step of the broker that the connection `c` makes. What it does not name stays as it is.
pub data Step (c : ℕ) (a b : View) : Type 0 where
  idle :
      ((n : String) → b.who n ≡ a.who n) → ((n : String) → b.waiting n ≡ a.waiting n) → Step c a b
  joins :
      (n : String)
      → a.who n ≡ none
      → ((m : String) → b.who m ≡ (if text_eq n m then some c else a.who m))
      → ((m : String) → b.waiting m ≡ a.waiting m)
      → Step c a b
  leaves :
      (n : String)
      → a.who n ≡ some c
      → ((m : String) → b.who m ≡ (if text_eq n m then none else a.who m))
      → ((m : String) → b.waiting m ≡ a.waiting m)
      → Step c a b
  asks :
      (n t : String) (r : Request)
      → a.who n ≡ some c
      → a.who t ≡ none
      → ((m : String) → b.who m ≡ a.who m)
      → ((m : String)
          → b.waiting m ≡ (if text_eq t m then a.waiting t ++ (n, r) ∷ [] else a.waiting m))
      → Step c a b
  served :
      (t : String)
      → a.who t ≡ some c
      → ((m : String) → b.who m ≡ a.who m)
      → ((m : String) → b.waiting m ≡ (if text_eq t m then [] else a.waiting m))
      → Step c a b

-- The connection that an event is about.
unfoldable pub actor : {Bson : Type 0} → HubState → Event Bson → ℕ
actor h (accepted credentials) = h.next_connection
actor h (polled c m) = c
actor h (woken c) = c
actor h (reaped c) = c

stays_same : (c : ℕ) (context : HubContext) → Step c (view context) (view context)
unfolding view
stays_same c context = idle (λ n. refl) (λ n. refl)

module _ (h : HubState) (v : Inv h) where
  Move-Step :
      (c : ℕ) (phase phase' : Phase) (context : HubContext)
      → h.tasks c ≡ some phase
      → Move h.context c phase context phase'
      → Step c (view h.context) (view context)
  unfolding view push_waiter waiters_of
  Move-Step c phase phase' context at (refused credentials) = stays_same c h.context
  Move-Step c phase phase' context at (takes credentials n free) =
      joins n free (λ m. get-insert n m c h.context.client_registry) (λ m. refl)
  Move-Step c phase phase' context at (serves n) =
      served n (v.registered n c (subst (λ x. Holds x n) (sym at) refl)) (λ m. refl)
        (λ m. ground (arith, get-remove n m h.context.pending_connections))
  Move-Step c phase phase' context at (stays n) = stays_same c h.context
  Move-Step c phase phase' context at (queues n t request free) =
      asks n t request (v.registered n c (subst (λ x. Holds x n) (sym at) refl)) free (λ m. refl)
        (λ m. ground (
          arith,
          get-insert t m (waiters_of (get t h.context.pending_connections) ++ (n, request) ∷ [])
              h.context.pending_connections,
        ))
  Move-Step c phase phase' context at (ends n) = stays_same c h.context

  abbrev StepsTo : ℕ → Option (HubState × List Effect) → Type 0
  StepsTo c none = Unit {0}
  StepsTo c (some (h', effects)) = Step c (view h.context) (view h'.context)

  settle-StepsTo :
      (c : ℕ) (phase : Phase) (o : Outcome)
      → h.tasks c ≡ some phase
      → Moves h.context c phase o
      → StepsTo c (settle h c o)
  unfolding settle
  settle-StepsTo c phase none at m = tt
  settle-StepsTo c phase (some (context, phase', effects)) at m =
      Move-Step c phase phase' context at m

  wake-Step :
      (env : Env) (c : ℕ) (o : Option Phase)
      → h.tasks c ≡ o
      → Step c (view h.context) (view (wake env h c o).0.context)
  unfolding wake
  wake-Step env c (some (resolving n)) at = Move-Step c _ _ _ at (serves n)
  wake-Step env c (some (authorizing credentials)) at = stays_same c h.context
  wake-Step env c (some (running n)) at = stays_same c h.context
  wake-Step env c (some (finished n)) at = stays_same c h.context
  wake-Step env c none at = stays_same c h.context

  reap-Step :
      (c : ℕ) (o : Option Phase)
      → h.tasks c ≡ o
      → Step c (view h.context) (view (reap h c o).context)
  unfolding reap view
  reap-Step c (some (finished (some n))) at =
      leaves n (v.registered n c (subst (λ x. Holds x n) (sym at) refl))
        (λ m. get-remove n m h.context.client_registry) (λ m. refl)
  reap-Step c (some (finished none)) at = stays_same c h.context
  reap-Step c (some (authorizing credentials)) at = stays_same c h.context
  reap-Step c (some (resolving n)) at = stays_same c h.context
  reap-Step c (some (running n)) at = stays_same c h.context
  reap-Step c none at = stays_same c h.context

  accept-Step :
      (c : ℕ) (o : Option (Option ℕ)) → Step c (view h.context) (view (accept h o).context)
  unfolding accept
  accept-Step c none = stays_same c h.context
  accept-Step c (some credentials) = stays_same c h.context

module _ (codec : Codec) where
  open codec use {Bson}

  poll-StepsTo :
      (env : Env) (h : HubState) (v : Inv h) (c : ℕ) (m : Option (Message Bson)) (o : Option Phase)
      → h.tasks c ≡ o
      → StepsTo h v c (poll codec env h c m o)
  unfolding poll
  poll-StepsTo env h v c m (some (authorizing credentials)) at =
      settle-StepsTo h v c _ (authorize codec env credentials c h.context m) at
        (authorize-Moves codec env credentials c h.context m)
  poll-StepsTo env h v c m (some (running n)) at =
      settle-StepsTo h v c _ (client_loop codec env n c h.context m) at
        (client_loop-Moves codec env n c h.context m)
  poll-StepsTo env h v c m (some (resolving n)) at = stays_same c h.context
  poll-StepsTo env h v c m (some (finished n)) at = stays_same c h.context
  poll-StepsTo env h v c m none at = stays_same c h.context

  step-StepsTo :
      (env : Env) (h : HubState) (v : Inv h) (event : Event Bson)
      → StepsTo h v (actor h event) (step codec env h event)
  unfolding step actor
  step-StepsTo env h v (accepted credentials) = accept-Step h v h.next_connection credentials
  step-StepsTo env h v (polled c m) = poll-StepsTo env h v c m (h.tasks c) refl
  step-StepsTo env h v (woken c) = wake-Step h v env c (h.tasks c) refl
  step-StepsTo env h v (reaped c) = reap-Step h v c (h.tasks c) refl

  -- Each step of the hub is a step of the broker, made by the connection that the step is about. From
  -- every state that a new hub comes to: the connection takes a name that nobody has, or gives up a name
  -- that it has; or it has a name, and its request comes to the end of the queue for a name that nobody
  -- has; or it has a name, and the queue for that name is emptied; or nothing changes. No other name and
  -- no other queue changes.
  pub step_is_broker :
      (dirs : List String) {h h' : HubState} {es fs : List Effect} (env : Env) (event : Event Bson)
      → Runs codec (new dirs) es h
      → step codec env h event ≡ some (h', fs)
      → Step (actor h event) (view h.context) (view h'.context)
  step_is_broker dirs {h} env event r e =
      let v = Runs-Inv codec (new-Inv dirs) r in
      subst (StepsTo h v (actor h event)) e (step-StepsTo env h v event)
