-- ===== src/Hub/Interleaved/Abstract.antt =====
-- krossbar-hub/src/hub.rs and client.rs: the state of the hub between two awaits, seen as a state of
-- `Sessions`.
use mathlib.Core.Path.{fun_ext}
use krossbar_bus.Common.{
  ℕ, suc, String, ◌≡◌, refl, sym, ◌∙◌, ap, Bool, Option, none, some, List, [], ◌∷◌, ◌==◌, arith,
  inl, inr, Bool-cases,
}
use krossbar_bus.Hub.Context.{Effect, HubContext}
use krossbar_bus.Hub.Sessions
use krossbar_bus.Hub.Sessions.{Phase, resolving, finished, HubState, set_task}
use krossbar_bus.Hub.Access.{Sent}
use krossbar_bus.Hub.Pool.{
  Stage, at, complaining, handling, serving, writing, Main, selecting, removing, Pool, set_stage,
  write_on, move_to,
}
use krossbar_bus.Hub.Interleaved.{accept}

-- The phase that a task is in, or comes to once it has written.
unfoldable pub phase_of : {Bson : Type 0} → Stage Bson → Phase
phase_of (at phase) = phase
phase_of (complaining e phase m) = phase
phase_of (handling phase m) = phase
phase_of (serving name) = resolving name
phase_of (writing held es phase) = phase

unfoldable pub phase_at : {Bson : Type 0} → Option (Stage Bson) → Option Phase
unfolding phase_of
phase_at none = none
phase_at (some stage) = some (phase_of stage)

unfoldable pub abstract : {Bson : Type 0} → Pool Bson → HubState
unfolding phase_at
abstract p = record {
  context = p.context;
  tasks = λ d. phase_at (p.stages d);
  next_connection = p.next_connection;
}

-- A name is removed for a task that is done.
abbrev pub IsRemoving : {Bson : Type 0} → Pool Bson → Main → Type 0
IsRemoving p selecting = Unit {0}
IsRemoving p (removing c name) = p.stages c ≡ some (at (finished (some name)))

module _ {Bson : Type 0} (stages : ℕ → Option (Stage Bson)) (c : ℕ) where
  tasks_set :
      (x : Option (Stage Bson))
      → ◌≡◌ {A = ℕ → Option Phase}
          (λ d. phase_at (set_stage stages c x d))
          (set_task (λ d. phase_at (stages d)) c (phase_at x))
  unfolding set_stage set_task
  tasks_set x = fun_ext (λ d. elim (Bool-cases (d == c)) [ inl e ↦ rw e refl | inr e ↦ rw e refl ])

  tasks_same :
      (x : Option (Stage Bson))
      → phase_at x ≡ phase_at (stages c)
      → ◌≡◌ {A = ℕ → Option Phase}
          (λ d. phase_at (set_stage stages c x d))
          (λ d. phase_at (stages d))
  unfolding set_stage
  tasks_same x same = fun_ext (λ d. elim (Bool-cases (d == c)) [
    | inl e ↦
        let here : d ≡ c = ground arith in rw e (same ∙ ap (λ i. phase_at (stages i)) (sym here))
    | inr e ↦ rw e refl
  ])

module _ {Bson : Type 0} (p : Pool Bson) (c : ℕ) where
  -- A stage of the same phase changes nothing that `Sessions` sees.
  pub move_to-same :
      (stage : Stage Bson)
      → some (phase_of stage) ≡ phase_at (p.stages c)
      → abstract (move_to c stage p) ≡ abstract p
  unfolding abstract move_to phase_at
  move_to-same stage same =
      ap
        (λ (t : ℕ → Option Phase).
          let h : HubState = record {
            context = p.context;
            tasks = t;
            next_connection = p.next_connection;
          } in
          h)
        (tasks_same p.stages c (some stage) same)

  pub write_on-same :
      (held : Bool) (es : List Effect) (phase : Phase)
      → some phase ≡ phase_at (p.stages c)
      → abstract (write_on c held es phase p) ≡ abstract p
  unfolding abstract move_to write_on phase_of
  write_on-same held [] phase same = move_to-same (at phase) same
  write_on-same held (e ∷ es) phase same = move_to-same (writing held (e ∷ es) phase) same

hub_state : HubContext → ℕ → (ℕ → Option Phase) → HubState
hub_state context next tasks = record { context = context; tasks = tasks; next_connection = next }

module _ {Bson : Type 0} where
  pub write_on-set :
      (c : ℕ) (held : Bool) (es : List Effect) (phase : Phase) (p : Pool Bson)
      → abstract (write_on c held es phase p)
        ≡ record (abstract p) { tasks = set_task (abstract p).tasks c (some phase) }
  unfolding abstract write_on hub_state phase_at phase_of
  write_on-set c held [] phase p =
      ap (hub_state p.context p.next_connection) (tasks_set p.stages c (some (at phase)))
  write_on-set c held (e ∷ es) phase p =
      ap (hub_state p.context p.next_connection)
        (tasks_set p.stages c (some (writing held (e ∷ es) phase)))

  pub accept-abstract :
      (o : Option (Option ℕ)) (p : Pool Bson)
      → abstract (accept o p) ≡ Sessions.accept (abstract p) o
  unfolding abstract accept Sessions.accept hub_state phase_at phase_of
  accept-abstract none p = refl
  accept-abstract (some credentials) p =
      ap (hub_state p.context (suc p.next_connection))
        (tasks_set p.stages p.next_connection (some (at (Phase.authorizing credentials))))

  pub reap-abstract :
      (c : ℕ) (name : Option String) (p q : Pool Bson)
      → q.context ≡ Sessions.forget_client name p.context
      → q.stages ≡ set_stage p.stages c none
      → q.next_connection ≡ p.next_connection
      → abstract q ≡ Sessions.reap (abstract p) c (some (finished name))
  unfolding abstract Sessions.reap hub_state phase_at
  reap-abstract c name p q contexts stages nexts =
      rw (contexts, stages, nexts)
        (ap (hub_state (Sessions.forget_client name p.context) p.next_connection)
          (tasks_set p.stages c none))

-- What a task has yet to write.
module _ (Q : ℕ → String → String → Type 0) {Bson : Type 0} where
  abbrev pub Pending : Option (Stage Bson) → Type 0
  Pending (some (writing held es phase)) = Sent Q es
  Pending (some (complaining e phase m)) = Sent Q (e ∷ [])
  Pending (some (at phase)) = Unit {0}
  Pending (some (handling phase m)) = Unit {0}
  Pending (some (serving name)) = Unit {0}
  Pending none = Unit {0}

  abbrev pub AllPending : Pool Bson → Type 0
  AllPending p = (d : ℕ) → Pending (p.stages d)

  pub set_stage-Pending :
      (stages : ℕ → Option (Stage Bson)) (c : ℕ) (x : Option (Stage Bson))
      → ((d : ℕ) → Pending (stages d))
      → Pending x
      → (d : ℕ) → Pending (set_stage stages c x d)
  unfolding set_stage
  set_stage-Pending stages c x all one d = elim (Bool-cases (d == c)) [
    | inl e ↦ rw e one
    | inr e ↦ rw e (all d)
  ]

  pub write_on-Pending :
      (c : ℕ) (held : Bool) (es : List Effect) (phase : Phase) (p : Pool Bson)
      → AllPending p
      → Sent Q es
      → AllPending (write_on c held es phase p)
  unfolding write_on
  write_on-Pending c held [] phase p all sent = set_stage-Pending p.stages c _ all tt
  write_on-Pending c held (e ∷ es) phase p all sent = set_stage-Pending p.stages c _ all sent

pub Sent-cons :
    (Q : ℕ → String → String → Type 0) (e : Effect) (es : List Effect)
    → Sent Q (e ∷ es)
    → Sent Q (e ∷ []) × Sent Q es
Sent-cons Q (Effect.respond r result) es s = (tt, s)
Sent-cons Q (Effect.respond_with_fd r socket) es s = (tt, s)
Sent-cons Q (Effect.connection_request w i t socket) es s = ((s.0, tt), s.1)
Sent-cons Q (Effect.flush d) es s = (tt, s)
