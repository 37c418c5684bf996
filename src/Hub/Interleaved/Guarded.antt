-- ===== src/Hub/Interleaved/Guarded.antt =====
-- krossbar-hub/src/hub.rs and client.rs: what the lock of the context protects, while tasks are
-- suspended in their writes.
use krossbar_bus.Common.{
  ℕ, String, ◌≡◌, refl, sym, subst, Bool, true, false, Option, none, some, List, [], ◌∷◌,
  if◌then◌else◌,
}
use krossbar_bus.Common.Maps.{get}
use krossbar_bus.Hub.Context.{Effect, Env, resolve_pending_connections}
use krossbar_bus.Hub.Sessions.{Codec, running, Outcome}
use krossbar_bus.Hub.Registry
use krossbar_bus.Hub.Registry.{Holds, new-Inv}
use krossbar_bus.Hub.Steps.{Runs-Inv}
use krossbar_bus.Hub.Access.{Sent, Rightful, resolve-Safe}
use krossbar_bus.Hub.Pool.{
  Stage, at, complaining, handling, serving, writing, Main, selecting, removing, Pool, Event,
  accepted, polled, woken, goes_on, reaped, main_goes_on, Access, unlocked, brief, kept, is_locked,
  is_kept, must_wait, move_to,
}
use krossbar_bus.Hub.Interleaved.{access, handled, serve, resume, turn, Turns, begin, then_turn}
use krossbar_bus.Hub.Interleaved.Abstract.{phase_at, abstract, Sent-cons}
use krossbar_bus.Hub.Interleaved.Sound.{Sound}
use krossbar_bus.Hub.Interleaved.Stays.{lock_free}
use krossbar_bus.Hub.Interleaved.Allowed.{
  idle, interleaving_excludes, interleaving_refines_sessions,
}
use krossbar_bus.Hub.Interleaved.Due.{
  Allowed, Due, AllDue, StaysDue, nobody-Sent, set-Due, write_on-AllDue, free-AllDue, poll-AllDue,
  wake-AllDue, reap-AllDue, accept-AllDue, remove_name-AllDue,
}
use krossbar_bus.Hub.Interleaved.Outcomes.{
  Registered, map-Sent, all-Approved, IsGuarded, handle-IsGuarded,
}

module _ (codec : Codec) where
  open codec use {Bson}

  -- A message was handled, once its task had the lock that it needs.
  handled-StaysDue :
      (c : ℕ) (a : Access) (o : Outcome) (p : Pool Bson)
      → Sound p
      → AllDue p
      → must_wait a p.lock ≡ false
      → IsGuarded a p.context o
      → StaysDue p.context (handled codec c (is_kept a) o p)
  unfolding handled must_wait is_kept
  handled-StaysDue c a none p v all go g = tt
  handled-StaysDue c unlocked (some (context, phase, es)) p v all go g = (
    write_on-AllDue c false es phase (record p { context = context })
        (subst (λ x. AllDue (record p { context = x })) (sym g.0) all) g.1,
    tt,
  )
  handled-StaysDue c brief (some (context, phase, es)) p v all go g = (
    write_on-AllDue c false es phase (record p { context = context })
        (free-AllDue p context v (lock_free codec p.lock go) all) g,
    tt,
  )
  handled-StaysDue c kept (some (context, phase, es)) p v all go g = (
    write_on-AllDue c true es phase (record p { context = context })
        (free-AllDue p context v (lock_free codec p.lock go) all) g,
    tt,
  )

  wait-StaysDue :
      (p : Pool Bson) (wait : Bool) (o : Option (Pool Bson × List Effect))
      → AllDue p
      → (wait ≡ false → StaysDue p.context o)
      → StaysDue p.context (if wait then some (p, []) else o)
  wait-StaysDue p true o all go = (all, tt)
  wait-StaysDue p false o all go = go refl

  resume-StaysDue :
      (env : Env) (c : ℕ) (o : Option (Stage Bson)) (p : Pool Bson)
      → Sound p
      → Registry.Inv (abstract p)
      → AllDue p
      → p.stages c ≡ o
      → StaysDue p.context (resume codec env c o p)
  unfolding resume serve abstract phase_at move_to resolve_pending_connections
  resume-StaysDue env c (some (complaining e phase m)) p v w all here = (
    set-Due p.context p.stages c _ all tt,
    nobody-Sent false p.context (e ∷ []) (subst (Due p.context) here (all c)),
  )
  resume-StaysDue env c (some (handling phase m)) p v w all here =
      wait-StaysDue p (must_wait (access codec phase m.body) p.lock) _ all (λ go.
        handled-StaysDue c (access codec phase m.body) _ p v all go
          (handle-IsGuarded codec env c p.context phase m))
  resume-StaysDue env c (some (serving name)) p v w all here =
      let r = resolve_pending_connections env name c p.context in
      wait-StaysDue p (is_locked p.lock) _ all (λ go. (
        write_on-AllDue c true r.1 (running name) (record p { context = r.0 })
            (free-AllDue p r.0 v (lock_free codec p.lock go) all)
            (map-Sent (Rightful (λ i t. Unit {0}) p.context) (Registered r.0) (λ d i t q. q.1) r.1
              (resolve-Safe (λ i t. Unit {0}) p.context (λ u. all-Approved u _) env name c
                (w.registered name c (subst (λ x. Holds (phase_at x) name) (sym here) refl))).1),
        tt,
      ))
  resume-StaysDue env c (some (writing held [] phase)) p v w all here =
      (write_on-AllDue c held [] phase p all tt, tt)
  resume-StaysDue env c (some (writing held (e ∷ es) phase)) p v w all here =
      let s = Sent-cons (Allowed held p.context) e es (subst (Due p.context) here (all c)) in
      (write_on-AllDue c held es phase p all s.1, nobody-Sent held p.context (e ∷ []) s.0)
  resume-StaysDue env c (some (at phase)) p v w all here = (all, tt)
  resume-StaysDue env c none p v w all here = (all, tt)

  turn-StaysDue :
      (env : Env) (main : Main) (event : Event Bson) (p : Pool Bson)
      → Sound p
      → Registry.Inv (abstract p)
      → AllDue p
      → StaysDue p.context (turn codec env main event p)
  unfolding turn
  turn-StaysDue env selecting (accepted o) p v w all = (accept-AllDue codec o p all, tt)
  turn-StaysDue env selecting (polled c m) p v w all =
      (poll-AllDue codec env c m (p.stages c) p all, tt)
  turn-StaysDue env selecting (woken c) p v w all = (wake-AllDue codec c (p.stages c) p all, tt)
  turn-StaysDue env selecting (goes_on c) p v w all =
      resume-StaysDue env c (p.stages c) p v w all refl
  turn-StaysDue env selecting (reaped c) p v w all = (reap-AllDue codec c (p.stages c) p all, tt)
  turn-StaysDue env selecting main_goes_on p v w all = (all, tt)
  turn-StaysDue env (removing c name) main_goes_on p v w all =
      (remove_name-AllDue codec c name p v all, tt)
  turn-StaysDue env (removing c name) (accepted o) p v w all = (all, tt)
  turn-StaysDue env (removing c name) (polled d m) p v w all = (all, tt)
  turn-StaysDue env (removing c name) (woken d) p v w all = (all, tt)
  turn-StaysDue env (removing c name) (goes_on d) p v w all = (all, tt)
  turn-StaysDue env (removing c name) (reaped d) p v w all = (all, tt)

  module _ (dirs : List String) where
    next-StaysDue :
        {es : List Effect} {p : Pool Bson} (env : Env) (event : Event Bson)
        → Turns codec (idle dirs) es p
        → AllDue p
        → StaysDue p.context (turn codec env p.main event p)
    next-StaysDue {es} {p} env event t all =
        let held = interleaving_excludes codec dirs p es t in
        let (fs, r) = interleaving_refines_sessions codec dirs p es t in
        turn-StaysDue env p.main event p (record { locks = held.0; removing = held.1 })
          (Runs-Inv codec (new-Inv dirs) r) all

    Turns-AllDue : {es : List Effect} {p : Pool Bson} → Turns codec (idle dirs) es p → AllDue p
    unfolding idle
    Turns-AllDue begin = λ d. tt
    Turns-AllDue (then_turn {p} env event t e) =
        (subst (StaysDue p.context) e (next-StaysDue env event t (Turns-AllDue t))).0

    -- After any history of a new hub with the awaits, whatever turn is taken: a connection request is
    -- written only to the connection that its target is registered for at the moment of that write, however
    -- many turns other tasks took since the request was handled.
    pub requests_reach_registered :
        (p p' : Pool Bson) (es fs : List Effect) (env : Env) (event : Event Bson)
        → Turns codec (idle dirs) es p
        → turn codec env p.main event p ≡ some (p', fs)
        → Sent (λ w i t. get t p.context.client_registry ≡ some w) fs
    requests_reach_registered p p' es fs env event t e =
        (subst (StaysDue p.context) e (next-StaysDue env event t (Turns-AllDue t))).1
