-- ===== src/Hub/Interleaved/Refines.antt =====
-- krossbar-hub/src/hub.rs and client.rs: the steps between two awaits, and the steps of `Sessions`.
use krossbar_bus.Common.{
  ℕ, String, ◌≡◌, refl, sym, ap, false, Option, none, some, [], inl, inr, Bool-cases,
}
use krossbar_bus.Rpc.{Message}
use krossbar_bus.Hub.Context.{Env}
use krossbar_bus.Hub.Sessions
use krossbar_bus.Hub.Sessions.{
  Codec, Phase, authorizing, resolving, running, finished, Outcome, HubState, set_task, settle,
  step, check_endpoint, expected_registration, expected_connection, authorize, client_loop, Runs,
  start, then_step,
}
use krossbar_bus.Hub.Interleaved
use krossbar_bus.Hub.Pool.{
  Stage, at, complaining, handling, serving, writing, Main, selecting, removing, Pool, Event,
  accepted, polled, woken, goes_on, reaped, main_goes_on, is_locked, set_stage, write_on, move_to,
}
use krossbar_bus.Hub.Interleaved.{
  access, accept, remove_name, handle, handled, serve, resume, turn, Turns, begin, then_turn,
}
use krossbar_bus.Hub.Interleaved.Abstract.{
  phase_of, phase_at, abstract, IsRemoving, accept-abstract, reap-abstract, AllPending,
  set_stage-Pending,
}
use krossbar_bus.Hub.Interleaved.Resumes.{
  Follows, check-Sent, move_to-Follows, hear-Follows, handled-Follows, resume-Follows,
}

module _ (Q : ℕ → String → String → Type 0) (codec : Codec) (env : Env) where
  open codec use {Bson}

  poll-Follows :
      (p : Pool Bson) (c : ℕ) (m : Option (Message Bson)) (o : Option (Stage Bson))
      → p.stages c ≡ o
      → Follows Q codec env p (some (Interleaved.poll c m o p, []))
  unfolding Interleaved.poll step Sessions.poll authorize client_loop settle phase_at phase_of
      abstract handled write_on move_to
  poll-Follows p c none (some (at (authorizing credentials))) here =
      handled-Follows Q codec env p c false (Sessions.Event.polled c none)
        (some (p.context, finished none, [])) (rw here refl)
  poll-Follows p c none (some (at (running name))) here =
      handled-Follows Q codec env p c false (Sessions.Event.polled c none)
        (some (p.context, finished (some name), [])) (rw here refl)
  poll-Follows p c (some m) (some (at (authorizing credentials))) here =
      hear-Follows Q codec env p c (authorizing credentials) m _ here
        (check-Sent Q codec env _ _ _ _)
  poll-Follows p c (some m) (some (at (running name))) here =
      hear-Follows Q codec env p c (running name) m _ here (check-Sent Q codec env _ _ _ _)
  poll-Follows p c none (some (at (resolving name))) here = inl (refl, λ all. (all, tt))
  poll-Follows p c (some m) (some (at (resolving name))) here = inl (refl, λ all. (all, tt))
  poll-Follows p c none (some (at (finished name))) here = inl (refl, λ all. (all, tt))
  poll-Follows p c (some m) (some (at (finished name))) here = inl (refl, λ all. (all, tt))
  poll-Follows p c none none here = inl (refl, λ all. (all, tt))
  poll-Follows p c none (some (complaining e phase m2)) here = inl (refl, λ all. (all, tt))
  poll-Follows p c none (some (handling phase m2)) here = inl (refl, λ all. (all, tt))
  poll-Follows p c none (some (serving name)) here = inl (refl, λ all. (all, tt))
  poll-Follows p c none (some (writing held es phase)) here = inl (refl, λ all. (all, tt))
  poll-Follows p c (some m) none here = inl (refl, λ all. (all, tt))
  poll-Follows p c (some m) (some (complaining e phase m2)) here = inl (refl, λ all. (all, tt))
  poll-Follows p c (some m) (some (handling phase m2)) here = inl (refl, λ all. (all, tt))
  poll-Follows p c (some m) (some (serving name)) here = inl (refl, λ all. (all, tt))
  poll-Follows p c (some m) (some (writing held es phase)) here = inl (refl, λ all. (all, tt))

  wake-Follows :
      (p : Pool Bson) (c : ℕ) (o : Option (Stage Bson))
      → p.stages c ≡ o
      → Follows Q codec env p (some (Interleaved.wake c o p, []))
  unfolding Interleaved.wake phase_at phase_of
  wake-Follows p c (some (at (resolving name))) here =
      move_to-Follows Q codec env p c (serving name) [] (sym (ap phase_at here)) (λ all. (tt, tt))
  wake-Follows p c none here = inl (refl, λ all. (all, tt))
  wake-Follows p c (some (complaining e phase m2)) here = inl (refl, λ all. (all, tt))
  wake-Follows p c (some (handling phase m2)) here = inl (refl, λ all. (all, tt))
  wake-Follows p c (some (serving name)) here = inl (refl, λ all. (all, tt))
  wake-Follows p c (some (writing held es phase)) here = inl (refl, λ all. (all, tt))
  wake-Follows p c (some (at (authorizing credentials))) here = inl (refl, λ all. (all, tt))
  wake-Follows p c (some (at (running name))) here = inl (refl, λ all. (all, tt))
  wake-Follows p c (some (at (finished name))) here = inl (refl, λ all. (all, tt))

  reap-Follows :
      (p : Pool Bson) (c : ℕ) (o : Option (Stage Bson))
      → p.stages c ≡ o
      → Follows Q codec env p (some (Interleaved.reap c o p, []))
  unfolding Interleaved.reap phase_at phase_of step Sessions.reap abstract
  reap-Follows p c (some (at (finished (some name)))) here = inl (refl, λ all. (all, tt))
  reap-Follows p c (some (at (finished none))) here =
      let p2 : Pool Bson = record p { stages = set_stage p.stages c none } in
      inr (
        Sessions.Event.reaped c,
        [],
        rw here
            (ap (λ (h : HubState). some (h, [])) (sym (reap-abstract c none p p2 refl refl refl))),
        λ sent all. (set_stage-Pending Q p.stages c none all tt, tt),
      )
  reap-Follows p c none here = inl (refl, λ all. (all, tt))
  reap-Follows p c (some (complaining e phase m2)) here = inl (refl, λ all. (all, tt))
  reap-Follows p c (some (handling phase m2)) here = inl (refl, λ all. (all, tt))
  reap-Follows p c (some (serving name)) here = inl (refl, λ all. (all, tt))
  reap-Follows p c (some (writing held es phase)) here = inl (refl, λ all. (all, tt))
  reap-Follows p c (some (at (authorizing credentials))) here = inl (refl, λ all. (all, tt))
  reap-Follows p c (some (at (running name))) here = inl (refl, λ all. (all, tt))
  reap-Follows p c (some (at (resolving name))) here = inl (refl, λ all. (all, tt))

  remove_name-Follows :
      (p : Pool Bson) (c : ℕ) (name : String)
      → p.stages c ≡ some (at (finished (some name)))
      → Follows Q codec env p (some (remove_name c name p, []))
  unfolding remove_name phase_at phase_of step abstract
  remove_name-Follows p c name here = elim (Bool-cases (is_locked p.lock)) [
    | inl e ↦ rw e (inl (refl, λ all. (all, tt)))
    | inr e ↦
        let p2 : Pool Bson = record p {
          context = Sessions.forget_client (some name) p.context;
          stages = set_stage p.stages c none;
          main = selecting;
        } in
        rw e (
          inr (
            Sessions.Event.reaped c,
            [],
            rw here (
                ap (λ (h : HubState). some (h, []))
                  (sym (reap-abstract c (some name) p p2 refl refl refl))),
            λ sent all. (set_stage-Pending Q p.stages c none all tt, tt),
          ))
  ]

  accept-Pending :
      (p : Pool Bson) (o : Option (Option ℕ)) → AllPending Q p → AllPending Q (accept o p)
  unfolding accept
  accept-Pending p none all = all
  accept-Pending p (some credentials) all = set_stage-Pending Q p.stages p.next_connection _ all tt

  pub turn-Follows :
      (p : Pool Bson) (main : Main) (event : Event Bson)
      → IsRemoving p main
      → Follows Q codec env p (turn codec env main event p)
  unfolding turn step
  turn-Follows p selecting (accepted o) v = inr (
    Sessions.Event.accepted o,
    [],
    ap (λ (h : HubState). some (h, [])) (sym (accept-abstract o p)),
    λ sent all. (accept-Pending p o all, tt),
  )
  turn-Follows p selecting (polled c m) v = poll-Follows p c m (p.stages c) refl
  turn-Follows p selecting (woken c) v = wake-Follows p c (p.stages c) refl
  turn-Follows p selecting (goes_on c) v = resume-Follows Q codec env p c (p.stages c) refl
  turn-Follows p selecting (reaped c) v = reap-Follows p c (p.stages c) refl
  turn-Follows p selecting main_goes_on v = inl (refl, λ all. (all, tt))
  turn-Follows p (removing c name) main_goes_on v = remove_name-Follows p c name v
  turn-Follows p (removing c name) (accepted o) v = inl (refl, λ all. (all, tt))
  turn-Follows p (removing c name) (polled d m) v = inl (refl, λ all. (all, tt))
  turn-Follows p (removing c name) (woken d) v = inl (refl, λ all. (all, tt))
  turn-Follows p (removing c name) (goes_on d) v = inl (refl, λ all. (all, tt))
  turn-Follows p (removing c name) (reaped d) v = inl (refl, λ all. (all, tt))
