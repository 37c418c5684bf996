-- ===== src/Hub/Interleaved/Sound.antt =====
-- krossbar-hub/src/hub.rs and client.rs: the lock of the context and the main loop, step by step.
use krossbar_bus.Common.{
  ℕ, ◌≡◌, refl, sym, ◌∙◌, ap, subst, Bool, true, false, Option, none, some, List, [], ◌∷◌, arith,
  ◌⊎◌,
}
use krossbar_bus.Rpc.{Message}
use krossbar_bus.Hub.Context.{HubContext, Effect}
use krossbar_bus.Hub.Sessions.{Phase, authorizing, resolving, running, finished}
use krossbar_bus.Hub.Registry
use krossbar_bus.Hub.Interleaved
use krossbar_bus.Hub.Pool.{
  Stage, at, complaining, handling, serving, writing, selecting, Pool, set_stage, write_on, move_to,
  hear,
}
use krossbar_bus.Hub.Interleaved.{access, accept, remove_name, handle, handled, serve, resume, turn}
use krossbar_bus.Hub.Interleaved.Abstract.{phase_at, abstract, IsRemoving}
use krossbar_bus.Hub.Interleaved.Lock.{under_lock, Locks, set-Locks, write_on-Locks}

pub record Sound {Bson : Type 0} (p : Pool Bson) : Type 0 where
  -- The lock is held by the task that writes under it, and by no other.
  pub locks : Locks p.stages p.lock
  -- A name is removed only for a task that is done.
  pub removing : IsRemoving p p.main

abbrev pub AllSound : {Bson : Type 0} → Option (Pool Bson × List Effect) → Type 0
AllSound none = Unit {0}
AllSound (some (p, effects)) = Sound p

module _ {Bson : Type 0} (p : Pool Bson) (v : Sound p) (at_rest : p.main ≡ selecting) where
  pub move_to-Sound :
      (c : ℕ) (stage : Stage Bson)
      → under_lock (p.stages c) ≡ false
      → under_lock (some stage) ≡ false
      → Sound (move_to c stage p)
  unfolding move_to
  move_to-Sound c stage before after = record {
    locks = set-Locks p.stages p.lock c (some stage) v.locks before after;
    removing = subst (IsRemoving (move_to c stage p)) (sym at_rest) tt;
  }

  write_on-main :
      (c : ℕ) (held : Bool) (es : List Effect) (phase : Phase)
      → (write_on c held es phase p).main ≡ p.main
  unfolding write_on
  write_on-main c held [] phase = refl
  write_on-main c held (e ∷ es) phase = refl

  pub write_on-Sound :
      (c : ℕ) (held : Bool) (es : List Effect) (phase : Phase)
      → (held ≡ true → (p.lock ≡ none) ⊎ (p.lock ≡ some c))
      → (held ≡ false → under_lock (p.stages c) ≡ false)
      → Sound (write_on c held es phase p)
  write_on-Sound c held es phase free before = record {
    locks = write_on-Locks c held es phase p v.locks free before;
    removing =
        subst (IsRemoving (write_on c held es phase p))
          (sym (write_on-main c held es phase ∙ at_rest)) tt;
  }

  hear-Sound :
      (c : ℕ) (phase : Phase) (m : Message Bson) (es : List Effect)
      → under_lock (p.stages c) ≡ false
      → Sound (move_to c (hear phase m es) p)
  unfolding hear under_lock
  hear-Sound c phase m [] before = move_to-Sound c _ before refl
  hear-Sound c phase m (e ∷ es) before = move_to-Sound c _ before refl

  pub poll-Sound :
      (c : ℕ) (m : Option (Message Bson)) (o : Option (Stage Bson))
      → p.stages c ≡ o
      → Sound (Interleaved.poll c m o p)
  unfolding Interleaved.poll under_lock
  poll-Sound c none (some (at (authorizing credentials))) here =
      move_to-Sound c _ (ap under_lock here) refl
  poll-Sound c none (some (at (running name))) here = move_to-Sound c _ (ap under_lock here) refl
  poll-Sound c (some m) (some (at (authorizing credentials))) here =
      hear-Sound c (authorizing credentials) m _ (ap under_lock here)
  poll-Sound c (some m) (some (at (running name))) here =
      hear-Sound c (running name) m _ (ap under_lock here)
  poll-Sound c none none here = v
  poll-Sound c none (some (complaining e phase m2)) here = v
  poll-Sound c none (some (handling phase m2)) here = v
  poll-Sound c none (some (serving name)) here = v
  poll-Sound c none (some (writing held es phase)) here = v
  poll-Sound c none (some (at (resolving name))) here = v
  poll-Sound c none (some (at (finished name))) here = v
  poll-Sound c (some m) none here = v
  poll-Sound c (some m) (some (complaining e phase m2)) here = v
  poll-Sound c (some m) (some (handling phase m2)) here = v
  poll-Sound c (some m) (some (serving name)) here = v
  poll-Sound c (some m) (some (writing held es phase)) here = v
  poll-Sound c (some m) (some (at (resolving name))) here = v
  poll-Sound c (some m) (some (at (finished name))) here = v

  pub wake-Sound :
      (c : ℕ) (o : Option (Stage Bson)) → p.stages c ≡ o → Sound (Interleaved.wake c o p)
  unfolding Interleaved.wake under_lock
  wake-Sound c (some (at (resolving name))) here = move_to-Sound c _ (ap under_lock here) refl
  wake-Sound c none here = v
  wake-Sound c (some (complaining e phase m2)) here = v
  wake-Sound c (some (handling phase m2)) here = v
  wake-Sound c (some (serving name)) here = v
  wake-Sound c (some (writing held es phase)) here = v
  wake-Sound c (some (at (authorizing credentials))) here = v
  wake-Sound c (some (at (running name))) here = v
  wake-Sound c (some (at (finished name))) here = v

  pub reap-Sound :
      (c : ℕ) (o : Option (Stage Bson)) → p.stages c ≡ o → Sound (Interleaved.reap c o p)
  unfolding Interleaved.reap under_lock
  reap-Sound c (some (at (finished (some name)))) here = record { locks = v.locks; removing = here }
  reap-Sound c (some (at (finished none))) here = record {
    locks = set-Locks p.stages p.lock c none v.locks (ap under_lock here) refl;
    removing =
        subst (IsRemoving (record p { stages = set_stage p.stages c none })) (sym at_rest) tt;
  }
  reap-Sound c none here = v
  reap-Sound c (some (complaining e phase m2)) here = v
  reap-Sound c (some (handling phase m2)) here = v
  reap-Sound c (some (serving name)) here = v
  reap-Sound c (some (writing held es phase)) here = v
  reap-Sound c (some (at (authorizing credentials))) here = v
  reap-Sound c (some (at (running name))) here = v
  reap-Sound c (some (at (resolving name))) here = v

  fresh_under_lock : (o : Option (Stage Bson)) → phase_at o ≡ none → under_lock o ≡ false
  unfolding phase_at under_lock
  fresh_under_lock none e = refl
  fresh_under_lock (some stage) e = cc

  pub accept-Sound : (o : Option (Option ℕ)) → Registry.Inv (abstract p) → Sound (accept o p)
  unfolding accept abstract under_lock
  accept-Sound none w = v
  accept-Sound (some credentials) w = record {
    locks =
        set-Locks p.stages p.lock p.next_connection _ v.locks
          (fresh_under_lock (p.stages p.next_connection) (w.fresh p.next_connection (omega arith)))
          refl;
    removing = subst (IsRemoving (accept (some credentials) p)) (sym at_rest) tt;
  }

  pub with_context-Sound : (context : HubContext) → Sound (record p { context = context })
  with_context-Sound context = record {
    locks = v.locks;
    removing = subst (IsRemoving (record p { context = context })) (sym at_rest) tt;
  }
