-- ===== src/Hub/Interleaved/Allowed.antt =====
-- krossbar-hub/src/hub.rs and client.rs: the histories with the awaits, and the histories of `Sessions`.
use krossbar_bus.Common.{String, refl, sym, subst, none, some, List, [], ◌++◌, inl, inr}
use krossbar_bus.Hub.Context.{Effect, Env}
use krossbar_bus.Hub.Sessions.{Codec, HubState, new, Runs, start, then_step}
use krossbar_bus.Hub.Registry.{new-Inv}
use krossbar_bus.Hub.Steps.{Runs-Inv}
use krossbar_bus.Hub.Access.{Grants, Sent, Sent-append}
use krossbar_bus.Hub.History.{AllGrant, Runs-Approved, new-AllApproved, forget_connection}
use krossbar_bus.Hub.Safety.{step-Safe}
use krossbar_bus.Hub.Pool.{selecting, Pool}
use krossbar_bus.Hub.Interleaved.{Turns, begin, then_turn}
use krossbar_bus.Hub.Interleaved.Abstract.{phase_at, abstract, IsRemoving, AllPending}
use krossbar_bus.Hub.Interleaved.Lock.{under_lock, Locks}
use krossbar_bus.Hub.Interleaved.Resumes.{Follows}
use krossbar_bus.Hub.Interleaved.Refines.{turn-Follows}
use krossbar_bus.Hub.Interleaved.Sound.{Sound, AllSound}
use krossbar_bus.Hub.Interleaved.Stays.{turn-Sound}

-- The hub before its first step, with nobody at work.
unfoldable pub idle : {Bson : Type 0} → List String → Pool Bson
unfolding new
idle dirs = record {
  context = (new dirs).context;
  stages = λ c. none;
  next_connection = (new dirs).next_connection;
  lock = none;
  main = selecting;
}

-- Whatever the permissions allowed in a step of the history, `P` holds of.
abbrev pub AllTurnsGrant :
    (P : String → String → Type 0) (codec : Codec) {origin p : Pool (codec.Bson)}
    {effects : List Effect}
    → Turns codec origin effects p
    → Type 0
AllTurnsGrant P codec begin = Unit {0}
AllTurnsGrant P codec (then_turn env event t e) = AllTurnsGrant P codec t × Grants env P

module _ (P : String → String → Type 0) (codec : Codec) (dirs : List String) where
  open codec use {Bson}

  -- A state that `Sessions` reaches too.
  abbrev Reached : HubState → Type 0
  Reached h = (fs : List Effect) × (r : Runs codec (new dirs) fs h) × AllGrant P codec r

  pub record Carried (effects : List Effect) (p : Pool Bson) : Type 0 where
    pub reached : Reached (abstract p)
    pub sound : Sound p
    pub pending : AllPending (λ w. P) p
    pub sent : Sent (λ w. P) effects

  idle-Carried : Carried [] (idle dirs)
  unfolding idle abstract new phase_at under_lock
  idle-Carried = record {
    reached = ([], start, tt);
    sound = record { locks = λ d. (λ e. cc, λ e. cc); removing = tt };
    pending = λ d. tt;
    sent = tt;
  }

  follow :
      (env : Env) (p p' : Pool Bson) (es fs : List Effect)
      → Grants env P
      → Carried es p
      → Sound p'
      → Follows (λ w. P) codec env p (some (p', fs))
      → Carried (es ++ fs) p'
  follow env p p' es fs grant k v (inl (same, pending)) = record {
    reached = subst Reached (sym same) k.reached;
    sound = v;
    pending = (pending k.pending).0;
    sent = Sent-append (λ w. P) es fs k.sent (pending k.pending).1;
  }
  follow env p p' es fs grant k v (inr (event, gs, e, pending)) =
      let (hs, r, grants) = k.reached in
      let inv = Runs-Inv codec (new-Inv dirs) r in
      let approved = (Runs-Approved P codec (new-Inv dirs) (new-AllApproved P dirs) r grants).0 in
      let safe = step-Safe P codec env grant (abstract p) inv approved event (abstract p') gs e in
      let now = pending (forget_connection P (abstract p).context gs safe.1) k.pending in
      record {
        reached = (hs ++ gs, then_step env event r e, (grants, grant));
        sound = v;
        pending = now.0;
        sent = Sent-append (λ w. P) es fs k.sent now.1;
      }

  pub Turns-Carried :
      {effects : List Effect} {p : Pool Bson} (t : Turns codec (idle dirs) effects p)
      → AllTurnsGrant P codec t
      → Carried effects p
  Turns-Carried begin grants = idle-Carried
  Turns-Carried (then_turn {p} {p'} {es} {fs} env event t e) grants =
      let k = Turns-Carried t grants.0 in
      let (hs, r, allowed) = k.reached in
      let inv = Runs-Inv codec (new-Inv dirs) r in
      follow env p p' es fs grants.1 k
        (subst AllSound e (turn-Sound codec env p p.main event k.sound inv refl))
        (subst (Follows (λ w. P) codec env p) e
          (turn-Follows (λ w. P) codec env p p.main event k.sound.removing))

  -- In every history of a new hub with the awaits, in whatever order the tasks take turns, a service is
  -- written a connection request only for an initiator that the permissions allowed in some step of the
  -- history: every predicate that holds of all the pairs that were allowed holds of all the pairs that
  -- were connected.
  pub interleaved_were_allowed :
      (p : Pool Bson) (effects : List Effect) (t : Turns codec (idle dirs) effects p)
      → AllTurnsGrant P codec t
      → Sent (λ w. P) effects
  interleaved_were_allowed p effects t grants = (Turns-Carried t grants).sent

module _ (codec : Codec) (dirs : List String) (p : Pool (codec.Bson)) (effects : List Effect)
    (t : Turns codec (idle dirs) effects p) where
  always :
      {effects : List Effect} {p : Pool (codec.Bson)} (t : Turns codec (idle dirs) effects p)
      → AllTurnsGrant (λ i u. Unit {0}) codec t
  always begin = tt
  always (then_turn env event t e) = (always t, λ policy i u allowed. tt)

  carried : Carried (λ i u. Unit {0}) codec dirs effects p
  carried = Turns-Carried (λ i u. Unit {0}) codec dirs t (always t)

  -- Whatever state a new hub comes to when its tasks take turns at every await, the hub that handles each
  -- event at once comes to as well: there is a history of `Sessions` that ends in the same state.
  pub interleaving_refines_sessions : (fs : List Effect) × Runs codec (new dirs) fs (abstract p)
  interleaving_refines_sessions = let (fs, r, grants) = carried.reached in (fs, r)

  -- After every history of a new hub with the awaits, the tasks that write under the lock of the context
  -- are the task that holds the lock, and no other; and the name that the main loop is about to remove is
  -- that of a task that is done.
  pub interleaving_excludes : Locks p.stages p.lock × IsRemoving p p.main
  interleaving_excludes = (carried.sound.locks, carried.sound.removing)
