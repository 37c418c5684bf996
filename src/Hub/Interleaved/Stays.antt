-- ===== src/Hub/Interleaved/Stays.antt =====
-- krossbar-hub/src/hub.rs and client.rs: the lock of the context, in each turn.
use krossbar_bus.Common.{
  ℕ, String, ◌≡◌, refl, ◌∙◌, ap, subst, Bool, true, false, Option, none, some, List, [], ◌∷◌, inl,
  inr, Bool-cases, if◌then◌else◌,
}
use krossbar_bus.Hub.Context.{Effect, Env, resolve_pending_connections}
use krossbar_bus.Hub.Sessions.{Codec, running, finished, Outcome}
use krossbar_bus.Hub.Registry
use krossbar_bus.Hub.Pool.{
  Stage, at, complaining, handling, serving, writing, Main, selecting, removing, Pool, Event,
  accepted, polled, woken, goes_on, reaped, main_goes_on, Access, unlocked, brief, kept, is_locked,
  is_kept, must_wait,
}
use krossbar_bus.Hub.Interleaved.{access, remove_name, handled, serve, resume, turn}
use krossbar_bus.Hub.Interleaved.Abstract.{abstract, IsRemoving}
use krossbar_bus.Hub.Interleaved.Lock.{under_lock, set-Locks}
use krossbar_bus.Hub.Interleaved.Sound.{
  Sound, AllSound, move_to-Sound, write_on-Sound, poll-Sound, wake-Sound, reap-Sound, accept-Sound,
  with_context-Sound,
}

may_keep :
    (a : Access) (lock : Option ℕ) → must_wait a lock ≡ false → is_kept a ≡ true → lock ≡ none
unfolding must_wait is_kept is_locked
may_keep unlocked lock e k = cc
may_keep brief lock e k = cc
may_keep kept none e k = refl
may_keep kept (some d) e k = cc

module _ (codec : Codec) where
  open codec use {Bson}

  handled-Sound :
      (p : Pool Bson) (c : ℕ) (held : Bool) (o : Outcome)
      → Sound p
      → p.main ≡ selecting
      → (held ≡ true → p.lock ≡ none)
      → under_lock (p.stages c) ≡ false
      → AllSound (handled codec c held o p)
  unfolding handled
  handled-Sound p c held none v at_rest free before = tt
  handled-Sound p c held (some (context, phase, effects)) v at_rest free before =
      write_on-Sound (record p { context = context }) (with_context-Sound p v at_rest context)
        at_rest c held effects phase (λ k. inl (free k)) (λ k. before)

  wait-Sound :
      (p : Pool Bson) (wait : Bool) (o : Option (Pool Bson × List Effect))
      → Sound p
      → (wait ≡ false → AllSound o)
      → AllSound (if wait then some (p, []) else o)
  wait-Sound p true o v go = v
  wait-Sound p false o v go = go refl

  pub lock_free : (lock : Option ℕ) → is_locked lock ≡ false → lock ≡ none
  unfolding is_locked
  lock_free none e = refl
  lock_free (some c) e = cc

  resume-Sound :
      (env : Env) (p : Pool Bson) (c : ℕ) (o : Option (Stage Bson))
      → Sound p
      → p.main ≡ selecting
      → p.stages c ≡ o
      → AllSound (resume codec env c o p)
  unfolding resume serve under_lock handled
  resume-Sound env p c (some (complaining e phase m)) v at_rest here =
      move_to-Sound p v at_rest c _ (ap under_lock here) refl
  resume-Sound env p c (some (handling phase m)) v at_rest here =
      wait-Sound p (must_wait (access codec phase m.body) p.lock) _ v (λ go.
        handled-Sound p c (is_kept (access codec phase m.body)) _ v at_rest
          (may_keep (access codec phase m.body) p.lock go) (ap under_lock here))
  resume-Sound env p c (some (serving name)) v at_rest here =
      let r = resolve_pending_connections env name c p.context in
      wait-Sound p (is_locked p.lock) _ v (λ go.
        handled-Sound p c true (some (r.0, running name, r.1)) v at_rest (λ k. lock_free p.lock go)
          (ap under_lock here))
  resume-Sound env p c (some (writing held [] phase)) v at_rest here =
      write_on-Sound p v at_rest c held [] phase (λ k. inr ((v.locks c).0 (ap under_lock here ∙ k)))
        (λ k. ap under_lock here ∙ k)
  resume-Sound env p c (some (writing held (e ∷ es) phase)) v at_rest here =
      write_on-Sound p v at_rest c held es phase (λ k. inr ((v.locks c).0 (ap under_lock here ∙ k)))
        (λ k. ap under_lock here ∙ k)
  resume-Sound env p c (some (at phase)) v at_rest here = v
  resume-Sound env p c none v at_rest here = v

  remove_name-Sound :
      (p : Pool Bson) (c : ℕ) (name : String)
      → Sound p
      → p.stages c ≡ some (at (finished (some name)))
      → Sound (remove_name c name p)
  unfolding remove_name under_lock
  remove_name-Sound p c name v here = elim (Bool-cases (is_locked p.lock)) [
    | inl e ↦ rw e v
    | inr e ↦ rw e (record {
      locks = set-Locks p.stages p.lock c none v.locks (ap under_lock here) refl;
      removing = tt;
    })
  ]

  pub turn-Sound :
      (env : Env) (p : Pool Bson) (main : Main) (event : Event Bson)
      → Sound p
      → Registry.Inv (abstract p)
      → p.main ≡ main
      → AllSound (turn codec env main event p)
  unfolding turn
  turn-Sound env p selecting (accepted o) v w e = accept-Sound p v e o w
  turn-Sound env p selecting (polled c m) v w e = poll-Sound p v e c m (p.stages c) refl
  turn-Sound env p selecting (woken c) v w e = wake-Sound p v e c (p.stages c) refl
  turn-Sound env p selecting (goes_on c) v w e = resume-Sound env p c (p.stages c) v e refl
  turn-Sound env p selecting (reaped c) v w e = reap-Sound p v e c (p.stages c) refl
  turn-Sound env p selecting main_goes_on v w e = v
  turn-Sound env p (removing c name) main_goes_on v w e =
      remove_name-Sound p c name v (subst (IsRemoving p) e v.removing)
  turn-Sound env p (removing c name) (accepted o) v w e = v
  turn-Sound env p (removing c name) (polled d m) v w e = v
  turn-Sound env p (removing c name) (woken d) v w e = v
  turn-Sound env p (removing c name) (goes_on d) v w e = v
  turn-Sound env p (removing c name) (reaped d) v w e = v
