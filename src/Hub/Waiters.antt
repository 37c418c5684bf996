-- ===== src/Hub/Waiters.antt =====
-- krossbar-hub/src/client.rs and hub.rs: what becomes of the requests that wait.
use krossbar_bus.Common.{
  ℕ, ◌+◌, ◌≤◌, String, ◌≡◌, ◌∙◌, ap, subst, Option, none, some, List, [], ◌∷◌, ◌++◌, arith, text_eq,
  eq_iff, inl, inr, Bool-cases,
}
use krossbar_bus.Common.Maps.{get, get-insert}
use krossbar_bus.Rpc.{Message}
use krossbar_bus.Hub.Context.{
  Request, Effect, Env, HubContext, waiters_of, push_waiter, resolve_pending_connections,
}
use krossbar_bus.Hub.Sessions.{
  Codec, Phase, authorizing, resolving, running, finished, Outcome, authorize, client_loop,
  HubState, Runs, start, then_step, Event, accepted, polled, woken, reaped, settle, accept, reap,
  wake, poll, step,
}
use krossbar_bus.Hub.Moves.{
  Move, Moves, refused, takes, serves, stays, queues, ends, authorize-Moves, client_loop-Moves,
}
use krossbar_bus.Hub.Registry.{IsResolving, Holds, Inv}
use krossbar_bus.Hub.Steps.{Runs-Inv}
use krossbar_bus.Hub.Requests.{
  answers, answers-append, waits, waits-push, waits_nowhere, resolve_lem,
}

module _ (r : Request) (t : String) where
  -- How often the request waits for the name.
  abbrev pub waiting : HubContext → ℕ
  waiting context = waits r (waiters_of (get t context.pending_connections))

  Move-waiting :
      (c : ℕ) (context context' : HubContext) (phase phase' : Phase)
      → (IsResolving (some phase) → ⊥)
      → Move context c phase context' phase'
      → waiting context ≤ waiting context'
  unfolding push_waiter waiters_of
  Move-waiting c context context' phase phase' other (refused credentials) = omega arith
  Move-waiting c context context' phase phase' other (takes credentials n free) = omega arith
  Move-waiting c context context' phase phase' other (serves n) = absurd (other tt)
  Move-waiting c context context' phase phase' other (stays n) = omega arith
  Move-waiting c context context' phase phase' other (queues n u q free) =
      let inserted =
        get-insert u t (waiters_of (get u context.pending_connections) ++ (n, q) ∷ [])
          context.pending_connections in
      elim (Bool-cases (text_eq u t)) [
        | inl e ↦
            let same : u ≡ t = (eq_iff u t).0 e in
            rw (inserted, e, same)
              (waits-push r (waiters_of (get t context.pending_connections)) n q)
        | inr e ↦ rw (inserted, e) (omega arith)
      ]
  Move-waiting c context context' phase phase' other (ends n) = omega arith

  abbrev KeepsOrAnswers : HubState → Option (HubState × List Effect) → Type 0
  KeepsOrAnswers h none = Unit {0}
  KeepsOrAnswers h (some (h', effects)) = waiting h.context ≤ waiting h'.context + answers r effects

  settle-Keeps :
      (h : HubState) (c : ℕ) (phase : Phase) (o : Outcome)
      → (IsResolving (some phase) → ⊥)
      → Moves h.context c phase o
      → KeepsOrAnswers h (settle h c o)
  unfolding settle
  settle-Keeps h c phase none other m = tt
  settle-Keeps h c phase (some (context, phase', effects)) other m =
      omega (arith, Move-waiting c h.context context phase phase' other m)

  serve-Keeps :
      (env : Env) (n : String) (c : ℕ) (context : HubContext)
      → let (context', effects) = resolve_pending_connections env n c context in
        waiting context ≤ waiting context' + answers r effects
  serve-Keeps env n c context =
      let resolved = resolve_lem env n c context r in
      elim (Bool-cases (text_eq n t)) [
        | inl e ↦
            let same : n ≡ t = (eq_iff n t).0 e in
            let all : answers r (resolve_pending_connections env n c context).1 ≡ waiting context =
              resolved.0
              ∙ ap (λ x. waits r (waiters_of (get x context.pending_connections))) same in
            omega (arith, all)
        | inr e ↦ rw (resolved.1 t, e) (omega arith)
      ]

  wake-Keeps :
      (env : Env) (h : HubState) (c : ℕ) (o : Option Phase)
      → KeepsOrAnswers h (some (wake env h c o))
  unfolding wake
  wake-Keeps env h c (some (resolving n)) = serve-Keeps env n c h.context
  wake-Keeps env h c (some (authorizing credentials)) = omega arith
  wake-Keeps env h c (some (running n)) = omega arith
  wake-Keeps env h c (some (finished n)) = omega arith
  wake-Keeps env h c none = omega arith

  reap-Keeps : (h : HubState) (c : ℕ) (o : Option Phase) → KeepsOrAnswers h (some (reap h c o, []))
  unfolding reap
  reap-Keeps h c (some (finished (some n))) = omega arith
  reap-Keeps h c (some (finished none)) = omega arith
  reap-Keeps h c (some (authorizing credentials)) = omega arith
  reap-Keeps h c (some (resolving n)) = omega arith
  reap-Keeps h c (some (running n)) = omega arith
  reap-Keeps h c none = omega arith

  accept-Keeps : (h : HubState) (o : Option (Option ℕ)) → KeepsOrAnswers h (some (accept h o, []))
  unfolding accept
  accept-Keeps h none = omega arith
  accept-Keeps h (some credentials) = omega arith

  module _ (codec : Codec) (env : Env) (h : HubState) where
    open codec use {Bson}

    poll-Keeps :
        (c : ℕ) (m : Option (Message Bson)) (o : Option Phase)
        → KeepsOrAnswers h (poll codec env h c m o)
    unfolding poll
    poll-Keeps c m (some (authorizing credentials)) =
        settle-Keeps h c _ (authorize codec env credentials c h.context m) (λ e. e)
          (authorize-Moves codec env credentials c h.context m)
    poll-Keeps c m (some (running n)) =
        settle-Keeps h c _ (client_loop codec env n c h.context m) (λ e. e)
          (client_loop-Moves codec env n c h.context m)
    poll-Keeps c m (some (resolving n)) = omega arith
    poll-Keeps c m (some (finished n)) = omega arith
    poll-Keeps c m none = omega arith

    step-Keeps : (event : Event Bson) → KeepsOrAnswers h (step codec env h event)
    unfolding step
    step-Keeps (accepted credentials) = accept-Keeps h credentials
    step-Keeps (polled c m) = poll-Keeps c m (h.tasks c)
    step-Keeps (woken c) = wake-Keeps env h c (h.tasks c)
    step-Keeps (reaped c) = reap-Keeps h c (h.tasks c)

  module _ (codec : Codec) where
    Runs-Keeps :
        {origin h : HubState} {effects : List Effect}
        → Runs codec origin effects h
        → waiting origin.context ≤ waiting h.context + answers r effects
    Runs-Keeps start = omega arith
    Runs-Keeps (then_step {h} {h'} {es} {fs} env event l e) =
        let kept : waiting h.context ≤ waiting h'.context + answers r fs =
          subst (KeepsOrAnswers h) e (step-Keeps codec env h event) in
        omega (arith, Runs-Keeps l, kept, answers-append r es fs)

    -- No request that waits is lost: in a history from a state in which the registry and the tasks
    -- agree, a request that waits for a name at the start has been answered, each time that it was
    -- queued, when the history has come to a state where a task holds the name and has served those
    -- who wait for it.
    pub waiters_are_answered :
        {origin h : HubState} {effects : List Effect} (c : ℕ)
        → Inv origin
        → Runs codec origin effects h
        → Holds (h.tasks c) t
        → (IsResolving (h.tasks c) → ⊥)
        → waiting origin.context ≤ answers r effects
    waiters_are_answered {h = h} c v l held served = elim ((Runs-Inv codec v l).unserved t c held) [
      | inl busy ↦ absurd (served busy)
      | inr empty ↦
          let nobody : waiting h.context ≡ 0 = rw empty (waits_nowhere r) in
          omega (arith, Runs-Keeps l, nobody)
    ]
