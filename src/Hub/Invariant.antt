-- ===== src/Hub/Invariant.antt =====
-- What tasks do, the end of a task and a new client keep the registry and the tasks in agreement.
use krossbar_bus.Common.{
  some_inj, ℕ, String, ◌≡◌, ◌≢◌, refl, sym, ap, subst, ◌∙◌, ◌⊎◌, inl, inr, Option, none, some,
  if◌then◌else◌, arith, Bool-cases, text_eq, eq_iff,
}
use krossbar_bus.Common.Maps.{get, remove, get-insert, get-remove}
use krossbar_bus.Hub.Context.{Request, HubContext, push_waiter}
use krossbar_bus.Hub.Sessions.{Phase, running, finished, HubState, set_task, accept, reap}
use krossbar_bus.Hub.Moves.{Move, refused, takes, serves, stays, queues, ends}
use krossbar_bus.Hub.Registry.{Holds, IsResolving, Inv, at_task, of_task, Inv-same, Inv-takes}

module _ (h : HubState) (v : Inv h) where
  -- A client that still runs has no waiters: they were served when it registered.
  no_waiters :
      (c : ℕ) (n : String)
      → h.tasks c ≡ some (running n)
      → get n h.context.pending_connections ≡ none
  no_waiters c n at = elim (v.unserved n c (subst (λ x. Holds x n) (sym at) refl)) [
    | inl r ↦ absurd (subst IsResolving at r)
    | inr u ↦ u
  ]

  -- A client is queued for a name that nobody holds.
  still_none :
      (n t m : String) (request : Request) (d : ℕ)
      → get t h.context.client_registry ≡ none
      → Holds (h.tasks d) m
      → get m h.context.pending_connections ≡ none
      → get m (push_waiter t n request h.context).pending_connections ≡ none
  unfolding push_waiter
  still_none n t m request d free holds u = elim (Bool-cases (text_eq t m)) [
    | inl q ↦
        let same : t ≡ m = (eq_iff t m).0 q in
        absurd (cc (v.registered m d holds, free, ap (λ x. get x h.context.client_registry) same))
    | inr q ↦ get-insert t m _ h.context.pending_connections ∙ rw q u
  ]

  pub Move-Inv :
      (c : ℕ) (phase phase' : Phase) (context : HubContext)
      → h.tasks c ≡ some phase
      → Move h.context c phase context phase'
      → Inv (record h { context = context; tasks = set_task h.tasks c (some phase') })
  unfolding push_waiter
  Move-Inv c phase phase' context at (refused credentials) =
      Inv-same h v c phase phase' context at refl (λ n e. e) (λ n e. e) (λ n e. absurd e)
        (λ n d holds u. u)
  Move-Inv c phase phase' context at (takes credentials n free) =
      Inv-takes h v c credentials n at free
  Move-Inv c phase phase' context at (serves n) =
      Inv-same h v c phase phase' context at refl (λ m e. e) (λ m e. e)
        (λ m e. inr (ground (arith, get-remove n m h.context.pending_connections, eq_iff n m)))
        (λ m d holds u. ground (arith, get-remove n m h.context.pending_connections))
  Move-Inv c phase phase' context at (stays n) =
      Inv-same h v c phase phase' context at refl (λ m e. e) (λ m e. e)
        (λ m e. inr (subst (λ x. get x h.context.pending_connections ≡ none) e (no_waiters c n at)))
        (λ m d holds u. u)
  Move-Inv c phase phase' context at (queues n t request free) =
      Inv-same h v c phase phase' context at refl (λ m e. e) (λ m e. e)
        (λ m e. inr (
          still_none n t m request c free (subst (λ x. Holds x m) (sym at) e)
            (subst (λ x. get x h.context.pending_connections ≡ none) e (no_waiters c n at))))
        (λ m d holds u. still_none n t m request d free holds u)
  Move-Inv c phase phase' context at (ends n) =
      Inv-same h v c phase phase' context at refl (λ m e. e) (λ m e. e)
        (λ m e. inr (subst (λ x. get x h.context.pending_connections ≡ none) e (no_waiters c n at)))
        (λ m d holds u. u)

  -- The invariant after a task is gone, with the names that it was registered for.
  Inv-gone :
      (c : ℕ) (context : HubContext)
      → context.pending_connections ≡ h.context.pending_connections
      → ((m : String) (d : ℕ)
          → get m context.client_registry ≡ some d
          → (d ≢ c) × (get m h.context.client_registry ≡ some d))
      → ((m : String) (d : ℕ)
          → d ≢ c
          → get m h.context.client_registry ≡ some d
          → get m context.client_registry ≡ some d)
      → Inv (record h { context = context; tasks = set_task h.tasks c none })
  Inv-gone c context pending left stay = record {
    held = λ m d e.
        at_task h v (λ x. Holds x m) c d none (λ q. absurd ((left m d e).0 q))
          (λ _. v.held m d (left m d e).1);
    registered = λ m d e. elim (of_task h v (λ x. Holds x m) c d none e) [
      | inl (q, holds) ↦ absurd holds
      | inr (q, holds) ↦ stay m d q (v.registered m d holds)
    ];
    unserved = λ m d e.
        at_task h v (λ x. Holds x m → IsResolving x ⊎ (get m context.pending_connections ≡ none)) c
          d none (λ q holds. absurd holds) (λ _ holds. rw pending (v.unserved m d holds)) e;
    fresh = λ d e. at_task h v (λ x. x ≡ none) c d none (λ _. refl) (λ _. v.fresh d e);
  }

  removed :
      (n m : String) (d : ℕ)
      → get m (remove n h.context.client_registry) ≡ some d
      → (n ≢ m) × (get m h.context.client_registry ≡ some d)
  removed n m d e =
      let left = sym (get-remove n m h.context.client_registry) ∙ e in
      elim (Bool-cases (text_eq n m)) [
        | inl q ↦ absurd (cc (rw q at left))
        | inr q ↦ (λ same. cc (q, (eq_iff n m).1 same), rw q at left)
      ]

  -- The name of a task that is done is free again.
  pub reap-Inv :
      (c : ℕ) (name : Option String)
      → h.tasks c ≡ some (finished name)
      → Inv (reap h c (some (finished name)))
  unfolding reap
  reap-Inv c none at =
      Inv-gone c h.context refl
        (λ m d e. (λ q. subst (λ x. Holds x m) (ap h.tasks q ∙ at) (v.held m d e), e))
        (λ m d ne e. e)
  reap-Inv c (some n) at =
      Inv-gone c _ refl
        (λ m d e.
          let (ne, old) = removed n m d e in
          (λ q. ne (subst (λ x. Holds x m) (ap h.tasks q ∙ at) (v.held m d old)), old))
        (λ m d ne e. get-remove n m h.context.client_registry ∙ kept m d ne e)
    where
      mine : get n h.context.client_registry ≡ some c
      mine = v.registered n c (subst (λ x. Holds x n) (sym at) refl)

      kept :
          (m : String) (d : ℕ)
          → d ≢ c
          → get m h.context.client_registry ≡ some d
          → (if text_eq n m then none else get m h.context.client_registry) ≡ some d
      kept m d ne e = elim (Bool-cases (text_eq n m)) [
        | inl q ↦ absurd (
            ne (
              some_inj (
                sym e ∙ ap (λ x. get x h.context.client_registry) (sym ((eq_iff n m).0 q)) ∙ mine)))
        | inr q ↦ rw q e
      ]

  pub accept-Inv : (credentials : Option (Option ℕ)) → Inv (accept h credentials)
  unfolding accept
  accept-Inv none = v
  accept-Inv (some credentials) = record {
    held = λ m d e.
        at_task h v (λ x. Holds x m) h.next_connection d _
          (λ q. subst (λ x. Holds x m) (v.fresh d (omega arith)) (v.held m d e))
          (λ _. v.held m d e);
    registered = λ m d e. elim (of_task h v (λ x. Holds x m) h.next_connection d _ e) [
      | inl (q, holds) ↦ absurd holds
      | inr (q, holds) ↦ v.registered m d holds
    ];
    unserved = λ m d e.
        at_task h v (λ x. Holds x m → IsResolving x ⊎ (get m h.context.pending_connections ≡ none))
          h.next_connection d _ (λ q holds. absurd holds) (λ _. v.unserved m d) e;
    fresh = λ d e.
        at_task h v (λ x. x ≡ none) h.next_connection d _ (λ q. absurd (omega arith))
          (λ _. v.fresh d (omega arith));
  }
