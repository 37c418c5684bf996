-- ===== src/Hub/Interleaved/Stall.antt =====
-- krossbar-hub/src/hub.rs: the main loop that waits for the lock of the context, at line 113.
use krossbar_bus.Common.{ℕ, String, ◌≡◌, refl, sym, ◌∙◌, ap, some, List, [], ◌++◌, some_inj}
use krossbar_bus.Hub.Context.{Effect, Env}
use krossbar_bus.Hub.Sessions.{Codec, finished}
use krossbar_bus.Hub.Pool.{
  at, Main, selecting, removing, Pool, Event, accepted, polled, woken, goes_on, reaped,
  main_goes_on, is_locked,
}
use krossbar_bus.Hub.Interleaved.{remove_name, reap, turn, Turns, begin, then_turn}

module _ (codec : Codec) where
  open codec use {Bson}

  blocked_turn :
      (env : Env) (main : Main) (event : Event Bson) (p : Pool Bson) (c d : ℕ) (name : String)
      → main ≡ removing c name
      → p.lock ≡ some d
      → turn codec env main event p ≡ some (p, [])
  unfolding turn remove_name is_locked
  blocked_turn env selecting event p c d name e lock = cc
  blocked_turn env (removing c2 name2) (accepted o) p c d name e lock = refl
  blocked_turn env (removing c2 name2) (polled x m) p c d name e lock = refl
  blocked_turn env (removing c2 name2) (woken x) p c d name e lock = refl
  blocked_turn env (removing c2 name2) (goes_on x) p c d name e lock = refl
  blocked_turn env (removing c2 name2) (reaped x) p c d name e lock = refl
  blocked_turn env (removing c2 name2) main_goes_on p c d name e lock = rw lock refl

  blocked :
      {p q : Pool Bson} {es : List Effect} (c d : ℕ) (name : String)
      → p.main ≡ removing c name
      → p.lock ≡ some d
      → Turns codec p es q
      → (q ≡ p) × (es ≡ [])
  blocked c d name e lock begin = (refl, refl)
  blocked {p} c d name e lock (then_turn {p = q} {es = gs} {fs} env event t step) =
      let (same, nothing) = blocked c d name e lock t in
      let stays =
        blocked_turn env q.main event q c d name (ap Pool.main same ∙ e)
          (ap Pool.lock same ∙ lock) in
      let after = some_inj (sym step ∙ stays) in
      (ap (λ x. x.0) after ∙ same, ap (λ gs. gs ++ fs) nothing ∙ ap (λ x. x.1) after)

  -- When a client that registered is gone and another task holds the lock of the context while it writes,
  -- the main loop that removes the name of the client leaves `select!` and waits for the lock, and the hub
  -- stalls: no turn after that changes its state or writes anything, the turns of the task that holds the
  -- lock included.
  pub hub_stalls :
      (env : Env) (p : Pool Bson) (c d : ℕ) (name : String)
      → p.main ≡ selecting
      → p.stages c ≡ some (at (finished (some name)))
      → p.lock ≡ some d
      → (q : Pool Bson) × (turn codec env p.main (reaped c) p ≡ some (q, []))
        × ((r : Pool Bson) (es : List Effect) → Turns codec q es r → (r ≡ q) × (es ≡ []))
  unfolding turn reap
  hub_stalls env p c d name at_rest gone lock = (
    record p { main = removing c name },
    rw (at_rest, gone) refl,
    λ r es t. blocked c d name refl lock t,
  )
