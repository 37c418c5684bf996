-- ===== src/Hub/Interleaved/Resumes.antt =====
-- krossbar-hub/src/hub.rs and client.rs: a task that goes on, and the steps of `Sessions`.
use krossbar_bus.Common.{
  ℕ, String, ◌≡◌, refl, sym, ◌∙◌, ap, subst, Bool, true, false, Option, none, some, List, [], ◌∷◌,
  inl, inr, ◌⊎◌, Bool-cases, text_eq, if◌then◌else◌,
}
use krossbar_bus.Protocol.{hub_register_method, hub_connect_method}
use krossbar_bus.Rpc.{Message}
use krossbar_bus.Hub.Context.{Request, Effect, Env, resolve_pending_connections}
use krossbar_bus.Hub.Sessions
use krossbar_bus.Hub.Sessions.{
  Codec, Phase, authorizing, resolving, running, finished, Outcome, HubState, set_task, settle,
  step, check_endpoint, expected_registration, expected_connection, authorize, client_loop, Runs,
  start, then_step,
}
use krossbar_bus.Hub.Access.{Sent}
use krossbar_bus.Hub.Pool.{
  Stage, at, complaining, handling, serving, writing, Pool, is_locked, is_kept, must_wait,
  request_of, write_on, move_to, hear,
}
use krossbar_bus.Hub.Interleaved.{access, handle, handled, serve, resume}
use krossbar_bus.Hub.Interleaved.Abstract.{
  phase_of, phase_at, abstract, move_to-same, write_on-set, write_on-same, Pending, AllPending,
  set_stage-Pending, write_on-Pending, Sent-cons,
}

module _ (Q : ℕ → String → String → Type 0) (codec : Codec) (env : Env) where
  open codec use {Bson}

  -- A step is nothing to `Sessions`, or it is one of its steps; and what it writes was to be written, or
  -- is what that step writes.
  abbrev pub Follows : Pool Bson → Option (Pool Bson × List Effect) → Type 0
  Follows p none = (event : Sessions.Event Bson) × (step codec env (abstract p) event ≡ none)
  Follows p (some (p', written)) =
      ((abstract p' ≡ abstract p) × (AllPending Q p → AllPending Q p' × Sent Q written))
      ⊎ ((event : Sessions.Event Bson) × (effects : List Effect) × (step codec env (abstract p)
              event
            ≡ some (abstract p', effects))
          × (Sent Q effects → AllPending Q p → AllPending Q p' × Sent Q written))

  pub check-Sent :
      (expected complaint endpoint : String) (r : Request)
      → Sent Q (check_endpoint expected complaint endpoint r)
  unfolding check_endpoint
  check-Sent expected complaint endpoint r = elim (Bool-cases (text_eq endpoint expected)) [
    | inl e ↦ rw e tt
    | inr e ↦ rw e tt
  ]

  pub move_to-Follows :
      (p : Pool Bson) (c : ℕ) (stage : Stage Bson) (written : List Effect)
      → some (phase_of stage) ≡ phase_at (p.stages c)
      → (AllPending Q p → Pending Q (some stage) × Sent Q written)
      → Follows p (some (move_to c stage p, written))
  unfolding move_to
  move_to-Follows p c stage written same pending = inl (
    move_to-same p c stage same,
    λ all. (set_stage-Pending Q p.stages c (some stage) all (pending all).0, (pending all).1),
  )

  pub hear-Follows :
      (p : Pool Bson) (c : ℕ) (phase : Phase) (m : Message Bson) (es : List Effect)
      → p.stages c ≡ some (at phase)
      → Sent Q es
      → Follows p (some (move_to c (hear phase m es) p, []))
  unfolding hear phase_of phase_at
  hear-Follows p c phase m [] here sent =
      move_to-Follows p c (handling phase m) [] (sym (ap phase_at here)) (λ all. (tt, tt))
  hear-Follows p c phase m (e ∷ es) here sent =
      move_to-Follows p c (complaining e phase m) [] (sym (ap phase_at here))
        (λ all. ((Sent-cons Q e es sent).0, tt))

  write_on-Follows :
      (p : Pool Bson) (c : ℕ) (held : Bool) (es : List Effect) (phase : Phase)
      (written : List Effect)
      → some phase ≡ phase_at (p.stages c)
      → (AllPending Q p → Sent Q es × Sent Q written)
      → Follows p (some (write_on c held es phase p, written))
  write_on-Follows p c held es phase written same pending = inl (
    write_on-same p c held es phase same,
    λ all. (write_on-Pending Q c held es phase p all (pending all).0, (pending all).1),
  )

  -- A message was handled as one step of `Sessions` does it.
  pub handled-Follows :
      (p : Pool Bson) (c : ℕ) (held : Bool) (event : Sessions.Event Bson) (o : Outcome)
      → step codec env (abstract p) event ≡ settle (abstract p) c o
      → Follows p (handled codec c held o p)
  unfolding handled settle abstract
  handled-Follows p c held event none e = (event, e)
  handled-Follows p c held event (some (context, phase, effects)) e =
      let p2 : Pool Bson = record p { context = context } in
      inr (
        event,
        effects,
        e ∙ ap (λ (h : HubState). some (h, effects)) (sym (write_on-set c held effects phase p2)),
        λ sent all. (write_on-Pending Q c held effects phase p2 all sent, tt),
      )

  handle-Follows :
      (p : Pool Bson) (c : ℕ) (phase : Phase) (m : Message Bson) (held : Bool)
      → p.stages c ≡ some (handling phase m)
      → Follows p (handled codec c held (handle codec env c phase m p.context) p)
  unfolding handle step Sessions.poll authorize client_loop check_endpoint abstract phase_at
      phase_of request_of handled
  handle-Follows p c (authorizing credentials) m held here =
      handled-Follows p c held
        (Sessions.Event.polled c (some (record m { endpoint = hub_register_method }))) _
        (rw here refl)
  handle-Follows p c (running name) m held here =
      handled-Follows p c held
        (Sessions.Event.polled c (some (record m { endpoint = hub_connect_method }))) _
        (rw here refl)
  handle-Follows p c (resolving name) m held here =
      write_on-Follows p c held [] (resolving name) [] (sym (ap phase_at here)) (λ all. (tt, tt))
  handle-Follows p c (finished name) m held here =
      write_on-Follows p c held [] (finished name) [] (sym (ap phase_at here)) (λ all. (tt, tt))

  wait-Follows :
      (p : Pool Bson) (wait : Bool) (o : Option (Pool Bson × List Effect))
      → Follows p o
      → Follows p (if wait then some (p, []) else o)
  wait-Follows p true o f = inl (refl, λ all. (all, tt))
  wait-Follows p false o f = f

  pub resume-Follows :
      (p : Pool Bson) (c : ℕ) (o : Option (Stage Bson))
      → p.stages c ≡ o
      → Follows p (resume codec env c o p)
  unfolding resume serve step Sessions.wake abstract phase_at phase_of handled
  resume-Follows p c (some (complaining e phase m)) here =
      move_to-Follows p c (handling phase m) (e ∷ []) (sym (ap phase_at here))
        (λ all. (tt, subst (Pending Q) here (all c)))
  resume-Follows p c (some (handling phase m)) here =
      wait-Follows p (must_wait (access codec phase m.body) p.lock) _
        (handle-Follows p c phase m (is_kept (access codec phase m.body)) here)
  resume-Follows p c (some (serving name)) here =
      let r = resolve_pending_connections env name c p.context in
      wait-Follows p (is_locked p.lock) _ (
        handled-Follows p c true (Sessions.Event.woken c) (some (r.0, running name, r.1))
          (rw here refl))
  resume-Follows p c (some (writing held [] phase)) here =
      write_on-Follows p c held [] phase [] (sym (ap phase_at here)) (λ all. (tt, tt))
  resume-Follows p c (some (writing held (e ∷ es) phase)) here =
      write_on-Follows p c held es phase (e ∷ []) (sym (ap phase_at here))
        (λ all. let s = Sent-cons Q e es (subst (Pending Q) here (all c)) in (s.1, s.0))
  resume-Follows p c (some (at phase)) here = inl (refl, λ all. (all, tt))
  resume-Follows p c none here = inl (refl, λ all. (all, tt))
