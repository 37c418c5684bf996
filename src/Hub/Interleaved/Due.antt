-- ===== src/Hub/Interleaved/Due.antt =====
-- krossbar-hub/src/hub.rs and client.rs: what the tasks have yet to write, and where it goes.
use krossbar_bus.Common.{
  ℕ, String, ◌≡◌, Bool, true, false, Option, none, some, List, [], ◌∷◌, inl, inr, Bool-cases, ◌==◌,
}
use krossbar_bus.Rpc.{Message}
use krossbar_bus.Hub.Context.{HubContext, Effect, Env}
use krossbar_bus.Hub.Sessions.{
  Codec, Phase, authorizing, resolving, running, finished, forget_client,
}
use krossbar_bus.Hub.Access.{Sent}
use krossbar_bus.Hub.Pool.{
  Stage, at, complaining, handling, serving, writing, Pool, is_locked, set_stage, write_on, move_to,
  hear,
}
use krossbar_bus.Hub.Interleaved
use krossbar_bus.Hub.Interleaved.{
  access, handle, accept, remove_name, handled, serve, resume, turn, Turns, begin, then_turn,
}
use krossbar_bus.Hub.Interleaved.Abstract.{Sent-cons}
use krossbar_bus.Hub.Interleaved.Lock.{under_lock, Locks}
use krossbar_bus.Hub.Interleaved.Resumes.{check-Sent}
use krossbar_bus.Hub.Interleaved.Sound.{Sound}
use krossbar_bus.Hub.Interleaved.Stays.{lock_free}
use krossbar_bus.Hub.Interleaved.Outcomes.{Registered, Nowhere, map-Sent}

-- Whom a task may connect: under the lock, the services that are registered; else nobody.
abbrev pub Allowed : Bool → HubContext → ℕ → String → String → Type 0
Allowed true context = Registered context
Allowed false context = Nowhere

pub nobody-Sent :
    (held : Bool) (context : HubContext) (es : List Effect)
    → Sent (Allowed held context) es
    → Sent (Registered context) es
nobody-Sent true context es s = s
nobody-Sent false context es s = map-Sent Nowhere (Registered context) (λ w i t q. absurd q) es s

module _ {Bson : Type 0} where
  -- What a task has yet to write.
  abbrev pub Due : HubContext → Option (Stage Bson) → Type 0
  Due context (some (writing held es phase)) = Sent (Allowed held context) es
  Due context (some (complaining e phase m)) = Sent Nowhere (e ∷ [])
  Due context (some (at phase)) = Unit {0}
  Due context (some (handling phase m)) = Unit {0}
  Due context (some (serving name)) = Unit {0}
  Due context none = Unit {0}

  abbrev pub AllDue : Pool Bson → Type 0
  AllDue p = (d : ℕ) → Due p.context (p.stages d)

  -- After a turn: what was written, and what is yet to be.
  abbrev pub StaysDue : HubContext → Option (Pool Bson × List Effect) → Type 0
  StaysDue context none = Unit {0}
  StaysDue context (some (p, written)) = AllDue p × Sent (Registered context) written

  pub set-Due :
      (context : HubContext) (stages : ℕ → Option (Stage Bson)) (c : ℕ) (x : Option (Stage Bson))
      → ((d : ℕ) → Due context (stages d))
      → Due context x
      → (d : ℕ) → Due context (set_stage stages c x d)
  unfolding set_stage
  set-Due context stages c x all one d = elim (Bool-cases (d == c)) [
    | inl e ↦ rw e one
    | inr e ↦ rw e (all d)
  ]

  pub write_on-AllDue :
      (c : ℕ) (held : Bool) (es : List Effect) (phase : Phase) (p : Pool Bson)
      → AllDue p
      → Sent (Allowed held p.context) es
      → AllDue (write_on c held es phase p)
  unfolding write_on
  write_on-AllDue c held [] phase p all s = set-Due p.context p.stages c _ all tt
  write_on-AllDue c held (e ∷ es) phase p all s = set-Due p.context p.stages c _ all s

  -- While nobody has the lock, nothing that is due depends on the context.
  free-Due :
      (before after : HubContext) (x : Option (Stage Bson))
      → under_lock x ≡ false
      → Due before x
      → Due after x
  unfolding under_lock
  free-Due before after (some (writing true es phase)) e s = cc
  free-Due before after (some (writing false es phase)) e s = s
  free-Due before after (some (complaining e phase m)) q s = s
  free-Due before after (some (at phase)) e s = tt
  free-Due before after (some (handling phase m)) e s = tt
  free-Due before after (some (serving name)) e s = tt
  free-Due before after none e s = tt

  none-under_lock :
      (stages : ℕ → Option (Stage Bson)) (lock : Option ℕ)
      → Locks stages lock
      → lock ≡ none
      → (d : ℕ) → under_lock (stages d) ≡ false
  none-under_lock stages lock v e d = elim (Bool-cases (under_lock (stages d))) [
    | inl q ↦ cc ((v d).0 q, e)
    | inr q ↦ q
  ]

  pub free-AllDue :
      (p : Pool Bson) (after : HubContext)
      → Sound p
      → p.lock ≡ none
      → AllDue p
      → AllDue (record p { context = after })
  free-AllDue p after v e all d =
      free-Due p.context after (p.stages d) (none-under_lock p.stages p.lock v.locks e d) (all d)

  hear-Due :
      (context : HubContext) (phase : Phase) (m : Message Bson) (es : List Effect)
      → Sent Nowhere es
      → Due context (some (hear phase m es))
  unfolding hear
  hear-Due context phase m [] s = tt
  hear-Due context phase m (e ∷ es) s = (Sent-cons Nowhere e es s).0

module _ (codec : Codec) where
  open codec use {Bson}

  pub poll-AllDue :
      (env : Env) (c : ℕ) (m : Option (Message Bson)) (o : Option (Stage Bson)) (p : Pool Bson)
      → AllDue p
      → AllDue (Interleaved.poll c m o p)
  unfolding Interleaved.poll move_to
  poll-AllDue env c none (some (at (authorizing credentials))) p all =
      set-Due p.context p.stages c _ all tt
  poll-AllDue env c none (some (at (running name))) p all = set-Due p.context p.stages c _ all tt
  poll-AllDue env c (some m) (some (at (authorizing credentials))) p all =
      set-Due p.context p.stages c _ all
        (hear-Due p.context (authorizing credentials) m _ (check-Sent Nowhere codec env _ _ _ _))
  poll-AllDue env c (some m) (some (at (running name))) p all =
      set-Due p.context p.stages c _ all
        (hear-Due p.context (running name) m _ (check-Sent Nowhere codec env _ _ _ _))
  poll-AllDue env c none none p all = all
  poll-AllDue env c none (some (at (resolving name))) p all = all
  poll-AllDue env c none (some (at (finished name))) p all = all
  poll-AllDue env c none (some (complaining e phase m2)) p all = all
  poll-AllDue env c none (some (handling phase m2)) p all = all
  poll-AllDue env c none (some (serving name)) p all = all
  poll-AllDue env c none (some (writing held es phase)) p all = all
  poll-AllDue env c (some m) none p all = all
  poll-AllDue env c (some m) (some (at (resolving name))) p all = all
  poll-AllDue env c (some m) (some (at (finished name))) p all = all
  poll-AllDue env c (some m) (some (complaining e phase m2)) p all = all
  poll-AllDue env c (some m) (some (handling phase m2)) p all = all
  poll-AllDue env c (some m) (some (serving name)) p all = all
  poll-AllDue env c (some m) (some (writing held es phase)) p all = all

  pub wake-AllDue :
      (c : ℕ) (o : Option (Stage Bson)) (p : Pool Bson) → AllDue p → AllDue (Interleaved.wake c o p)
  unfolding Interleaved.wake move_to
  wake-AllDue c (some (at (resolving name))) p all = set-Due p.context p.stages c _ all tt
  wake-AllDue c none p all = all
  wake-AllDue c (some (at (authorizing credentials))) p all = all
  wake-AllDue c (some (at (running name))) p all = all
  wake-AllDue c (some (at (finished name))) p all = all
  wake-AllDue c (some (complaining e phase m2)) p all = all
  wake-AllDue c (some (handling phase m2)) p all = all
  wake-AllDue c (some (serving name)) p all = all
  wake-AllDue c (some (writing held es phase)) p all = all

  pub reap-AllDue :
      (c : ℕ) (o : Option (Stage Bson)) (p : Pool Bson) → AllDue p → AllDue (Interleaved.reap c o p)
  unfolding Interleaved.reap
  reap-AllDue c (some (at (finished none))) p all = set-Due p.context p.stages c none all tt
  reap-AllDue c (some (at (finished (some name)))) p all = all
  reap-AllDue c none p all = all
  reap-AllDue c (some (at (authorizing credentials))) p all = all
  reap-AllDue c (some (at (running name))) p all = all
  reap-AllDue c (some (at (resolving name))) p all = all
  reap-AllDue c (some (complaining e phase m2)) p all = all
  reap-AllDue c (some (handling phase m2)) p all = all
  reap-AllDue c (some (serving name)) p all = all
  reap-AllDue c (some (writing held es phase)) p all = all

  pub accept-AllDue : (o : Option (Option ℕ)) (p : Pool Bson) → AllDue p → AllDue (accept o p)
  unfolding accept
  accept-AllDue none p all = all
  accept-AllDue (some credentials) p all = set-Due p.context p.stages p.next_connection _ all tt

  pub remove_name-AllDue :
      (c : ℕ) (name : String) (p : Pool Bson) → Sound p → AllDue p → AllDue (remove_name c name p)
  unfolding remove_name
  remove_name-AllDue c name p v all = elim (Bool-cases (is_locked p.lock)) [
    | inl e ↦ rw e all
    | inr e ↦
        let after = forget_client (some name) p.context in
        rw e
          (set-Due after p.stages c none (free-AllDue p after v (lock_free codec p.lock e) all) tt)
  ]
