-- ===== src/Hub/Interleaved/Progress.antt =====
-- krossbar-hub/src/client.rs: a task that writes, while the main loop is in its `select!`.
use krossbar_bus.Common.{
  ℕ, String, ◌≡◌, refl, ◌∙◌, ap, Bool, true, false, Option, none, some, List, [], ◌∷◌, ◌++◌,
  if◌then◌else◌, ◌==◌, arith,
}
use krossbar_bus.Hub.Context.{Effect, Env}
use krossbar_bus.Hub.Sessions.{Codec, Phase}
use krossbar_bus.Hub.Pool.{
  Stage, at, complaining, handling, serving, writing, selecting, Pool, goes_on, set_stage, write_on,
}
use krossbar_bus.Hub.Interleaved.{resume, turn, Turns}
use krossbar_bus.Hub.Interleaved.Lock.{under_lock}
use krossbar_bus.Hub.Interleaved.Allowed.{idle, interleaving_excludes}

module _ {Bson : Type 0} where
  set_stage-same :
      (stages : ℕ → Option (Stage Bson)) (c : ℕ) (x : Option (Stage Bson))
      → set_stage stages c x c ≡ x
  unfolding set_stage
  set_stage-same stages c x = let here : (c == c) ≡ true = ground arith in rw here refl

module _ (codec : Codec) (env : Env) where
  open codec use {Bson}

  -- Where a task is that has written all it had to.
  abbrev pub Settled : Pool Bson → ℕ → Bool → Phase → Pool Bson → Type 0
  Settled p c held phase q =
      (q.stages c ≡ some (at phase))
      × (q.lock ≡ (if held then none else p.lock))
      × (q.main ≡ p.main)
      × (q.context ≡ p.context)

  one_turn :
      (p : Pool Bson) (c : ℕ) (o : Option (Stage Bson)) (r : Option (Pool Bson × List Effect))
      → p.main ≡ selecting
      → p.stages c ≡ o
      → resume codec env c o p ≡ r
      → turn codec env p.main (goes_on c) p ≡ r
  unfolding turn
  one_turn p c o r at_rest here e =
      ap (λ main. turn codec env main (goes_on c) p) at_rest
      ∙ ap (λ o. resume codec env c o p) here
      ∙ e

  -- Turns of one task alone, on one machine, with what it wrote.
  pub data Alone (c : ℕ) : Pool Bson → List Effect → Pool Bson → Type 0 where
    rests : {p : Pool Bson} → Alone c p [] p
    takes_turn :
        {p q r : Pool Bson} {es fs : List Effect}
        → turn codec env p.main (goes_on c) p ≡ some (q, es)
        → Alone c q fs r
        → Alone c p (es ++ fs) r

  -- While the main loop is in its `select!`, a task that is writing comes to the phase after it by turns of
  -- its own, whoever holds the lock: it writes what it had to write, all of it and in that order, gives
  -- back the lock if it wrote under the lock, and leaves the context as it was.
  pub writer_settles :
      (p : Pool Bson) (c : ℕ) (held : Bool) (es : List Effect) (phase : Phase)
      → p.main ≡ selecting
      → p.stages c ≡ some (writing held es phase)
      → (q : Pool Bson) × Alone c p es q × Settled p c held phase q
  unfolding resume write_on
  writer_settles p c held [] phase at_rest here =
      let q = write_on c held [] phase p in
      (
        q,
        takes_turn (one_turn p c _ _ at_rest here refl) rests,
        (set_stage-same p.stages c _, refl, refl, refl),
      )
  writer_settles p c held (e ∷ []) phase at_rest here =
      let q = write_on c held [] phase p in
      (
        q,
        takes_turn (one_turn p c _ _ at_rest here refl) rests,
        (set_stage-same p.stages c _, refl, refl, refl),
      )
  writer_settles p c held (e ∷ e2 ∷ es) phase at_rest here =
      let q = write_on c held (e2 ∷ es) phase p in
      let (r, t, (there, lock, main, context)) =
        writer_settles q c held (e2 ∷ es) phase at_rest (set_stage-same p.stages c _) in
      (
        r,
        takes_turn (one_turn p c _ _ at_rest here refl) t,
        (there, lock ∙ given held, main, context),
      )
    where
      given :
          (held : Bool)
          → (if held then none else (if held then some c else p.lock))
            ≡ (if held then none else p.lock)
      given true = refl
      given false = refl

  holder_writes :
      (p : Pool Bson) (d : ℕ) (o : Option (Stage Bson))
      → p.main ≡ selecting
      → p.stages d ≡ o
      → under_lock o ≡ true
      → (q : Pool Bson) × (es : List Effect) × Alone d p es q
        × ((q.lock ≡ none) × (q.main ≡ selecting))
  unfolding under_lock
  holder_writes p d (some (writing true es phase)) at_rest here held =
      let (q, t, (there, lock, main, context)) = writer_settles p d true es phase at_rest here in
      (q, es, t, (lock, main ∙ at_rest))
  holder_writes p d (some (writing false es phase)) at_rest here held = cc
  holder_writes p d (some (at phase)) at_rest here held = cc
  holder_writes p d (some (complaining e phase m)) at_rest here held = cc
  holder_writes p d (some (handling phase m)) at_rest here held = cc
  holder_writes p d (some (serving name)) at_rest here held = cc
  holder_writes p d none at_rest here held = cc

  -- While the main loop is in its `select!`, the task that holds the lock of the context can give it back:
  -- after every history of a new hub, if a task holds the lock, turns of that task alone lead to a state in
  -- which the lock is free and the main loop is in its `select!`.
  pub lock_comes_free :
      (dirs : List String) (p : Pool Bson) (es : List Effect) (d : ℕ)
      → Turns codec (idle dirs) es p
      → p.main ≡ selecting
      → p.lock ≡ some d
      → (q : Pool Bson) × (fs : List Effect) × Alone d p fs q
        × ((q.lock ≡ none) × (q.main ≡ selecting))
  lock_comes_free dirs p es d t at_rest lock =
      holder_writes p d (p.stages d) at_rest refl
        (((interleaving_excludes codec dirs p es t).0 d).1 lock)
