-- ===== src/Hub/Interleaved/Lock.antt =====
-- krossbar-hub/src/hub.rs and client.rs: who holds the lock of the context between two awaits.
use krossbar_bus.Common.{
  ℕ, ◌≡◌, refl, ap, ◌↔◌, Bool, true, false, Option, none, some, List, [], ◌∷◌, arith, inl, inr, ◌⊎◌,
  Bool-cases, ◌==◌,
}
use krossbar_bus.Hub.Context.{Effect}
use krossbar_bus.Hub.Sessions.{Phase}
use krossbar_bus.Hub.Pool.{
  Stage, at, complaining, handling, serving, writing, Pool, set_stage, write_on,
}

-- The task writes while it holds the lock.
unfoldable pub under_lock : {Bson : Type 0} → Option (Stage Bson) → Bool
under_lock (some (writing held es phase)) = held
under_lock (some (at phase)) = false
under_lock (some (complaining e phase m)) = false
under_lock (some (handling phase m)) = false
under_lock (some (serving name)) = false
under_lock none = false

-- The lock is held by the task that writes under it, and by no other.
abbrev pub Locks : {Bson : Type 0} → (ℕ → Option (Stage Bson)) → Option ℕ → Type 0
Locks stages lock = (d : ℕ) → (under_lock (stages d) ≡ true) ↔ (lock ≡ some d)

module _ {Bson : Type 0} where
  -- A task that is not under the lock takes a stage that is not.
  pub set-Locks :
      (stages : ℕ → Option (Stage Bson)) (lock : Option ℕ) (c : ℕ) (x : Option (Stage Bson))
      → Locks stages lock
      → under_lock (stages c) ≡ false
      → under_lock x ≡ false
      → Locks (set_stage stages c x) lock
  unfolding set_stage
  set-Locks stages lock c x v before after d = elim (Bool-cases (d == c)) [
    | inl e ↦
        let same : d ≡ c = ground arith in
        rw (e, after) (λ q. cc, λ q. cc ((v d).1 q, before, ap (λ i. under_lock (stages i)) same))
    | inr e ↦ rw e (v d)
  ]

  -- A task takes the lock that is free, or that it has, and keeps it or gives it back.
  pub own-Locks :
      (stages : ℕ → Option (Stage Bson)) (lock after : Option ℕ) (c : ℕ) (x : Option (Stage Bson))
      → Locks stages lock
      → (lock ≡ none) ⊎ (lock ≡ some c)
      → ((under_lock x ≡ true) × (after ≡ some c)) ⊎ ((under_lock x ≡ false) × (after ≡ none))
      → Locks (set_stage stages c x) after
  unfolding set_stage
  own-Locks stages lock after c x v before now d = elim (Bool-cases (d == c)) [
    | inl e ↦ rw e (ground arith)
    | inr e ↦ rw e (ground (arith, v d))
  ]

  pub write_on-Locks :
      (c : ℕ) (held : Bool) (es : List Effect) (phase : Phase) (p : Pool Bson)
      → Locks p.stages p.lock
      → (held ≡ true → (p.lock ≡ none) ⊎ (p.lock ≡ some c))
      → (held ≡ false → under_lock (p.stages c) ≡ false)
      → Locks (write_on c held es phase p).stages (write_on c held es phase p).lock
  unfolding write_on under_lock
  write_on-Locks c true [] phase p v free before =
      own-Locks p.stages p.lock none c _ v (free refl) (inr (refl, refl))
  write_on-Locks c true (e ∷ es) phase p v free before =
      own-Locks p.stages p.lock (some c) c _ v (free refl) (inl (refl, refl))
  write_on-Locks c false [] phase p v free before =
      set-Locks p.stages p.lock c _ v (before refl) refl
  write_on-Locks c false (e ∷ es) phase p v free before =
      set-Locks p.stages p.lock c _ v (before refl) refl
