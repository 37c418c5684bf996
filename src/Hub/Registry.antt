-- ===== src/Hub/Registry.antt =====
-- Names and sessions: the registry names exactly the live tasks that were authorized.
use krossbar_bus.Common.{
  ℕ, ◌≤◌, String, ◌≡◌, ◌≢◌, refl, sym, ap, subst, ◌∙◌, ◌⊎◌, inl, inr, Option, none, some, List,
  ◌==◌, arith, Bool-cases, text_eq, eq_iff,
}
use krossbar_bus.Common.Maps.{get, insert, get-insert}
use krossbar_bus.Hub.Context.{HubContext}
use krossbar_bus.Hub.Sessions.{
  Phase, authorizing, resolving, running, finished, HubState, new, set_task,
}

-- The task is authorized under the name, and its end has not reached the main loop.
abbrev pub Holds : Option Phase → String → Type 0
Holds (some (resolving m)) n = m ≡ n
Holds (some (running m)) n = m ≡ n
Holds (some (finished (some m))) n = m ≡ n
Holds (some (finished none)) n = ⊥
Holds (some (authorizing credentials)) n = ⊥
Holds none n = ⊥

abbrev pub IsResolving : Option Phase → Type 0
IsResolving (some (resolving m)) = Unit {0}
IsResolving (some (running m)) = ⊥
IsResolving (some (finished m)) = ⊥
IsResolving (some (authorizing credentials)) = ⊥
IsResolving none = ⊥

pub record Inv (h : HubState) : Type 0 where
  -- A registered name is held by the task of the connection that it is registered for.
  pub held : (n : String) (c : ℕ) → get n h.context.client_registry ≡ some c → Holds (h.tasks c) n
  -- A name that a task holds is registered for its connection.
  pub registered :
      (n : String) (c : ℕ) → Holds (h.tasks c) n → get n h.context.client_registry ≡ some c
  -- Clients wait only for names that nobody holds, or whose task is about to serve them.
  pub unserved :
      (n : String) (c : ℕ)
      → Holds (h.tasks c) n
      → IsResolving (h.tasks c) ⊎ (get n h.context.pending_connections ≡ none)
  -- Connections are numbered in the order in which they come.
  pub fresh : (c : ℕ) → h.next_connection ≤ c → h.tasks c ≡ none

pub new-Inv : (dirs : List String) → Inv (new dirs)
unfolding new get
new-Inv dirs = record {
  held = λ n c e. cc;
  registered = λ n c e. absurd e;
  unserved = λ n c e. absurd e;
  fresh = λ c e. refl;
}

module _ (h : HubState) (v : Inv h) where
  -- A property of the tasks after `c` took a new phase, from both cases.
  pub at_task {ℓ} :
      (P : Option Phase → Type ℓ) (c d : ℕ) (x : Option Phase)
      → (d ≡ c → P x)
      → (d ≢ c → P (h.tasks d))
      → P (set_task h.tasks c x d)
  unfolding set_task
  at_task P c d x same other = elim (Bool-cases (d == c)) [
    | inl e ↦ rw e (same (ground arith))
    | inr e ↦ rw e (other (λ q. ground arith))
  ]

  pub of_task {ℓ} :
      (P : Option Phase → Type ℓ) (c d : ℕ) (x : Option Phase)
      → P (set_task h.tasks c x d)
      → ((d ≡ c) × P x) ⊎ ((d ≢ c) × P (h.tasks d))
  unfolding set_task
  of_task P c d x p = elim (Bool-cases (d == c)) [
    | inl e ↦ inl (ground arith, rw e at p)
    | inr e ↦ inr (λ q. ground arith, rw e at p)
  ]

  -- The invariant after a task took a new phase that holds what the old one held.
  pub Inv-same :
      (c : ℕ) (phase phase' : Phase) (context : HubContext)
      → h.tasks c ≡ some phase
      → context.client_registry ≡ h.context.client_registry
      → ((n : String) → Holds (some phase) n → Holds (some phase') n)
      → ((n : String) → Holds (some phase') n → Holds (some phase) n)
      → ((n : String)
          → Holds (some phase') n
          → IsResolving (some phase') ⊎ (get n context.pending_connections ≡ none))
      → ((n : String) (d : ℕ)
          → Holds (h.tasks d) n
          → get n h.context.pending_connections ≡ none
          → get n context.pending_connections ≡ none)
      → Inv (record h { context = context; tasks = set_task h.tasks c (some phase') })
  Inv-same c phase phase' context at reg to from served others = record {
    held = λ n d e.
        let before = v.held n d (ap (get n) (sym reg) ∙ e) in
        at_task (λ x. Holds x n) c d (some phase')
          (λ q. to n (subst (λ x. Holds x n) (ap h.tasks q ∙ at) before)) (λ _. before);
    registered = λ n d e. ap (get n) reg ∙ elim (of_task (λ x. Holds x n) c d (some phase') e) [
      | inl (q, holds) ↦
          v.registered n d (subst (λ x. Holds x n) (sym (ap h.tasks q ∙ at)) (from n holds))
      | inr (q, holds) ↦ v.registered n d holds
    ];
    unserved = λ n d e.
        at_task (λ x. Holds x n → IsResolving x ⊎ (get n context.pending_connections ≡ none)) c d
          (some phase') (λ q. served n)
          (λ _ holds. elim (v.unserved n d holds) [
            | inl r ↦ inl r
            | inr u ↦ inr (others n d holds u)
          ])
          e;
    fresh = λ d e.
        at_task (λ x. x ≡ none) c d (some phase') (λ q. cc (v.fresh d e, at, q)) (λ _. v.fresh d e);
  }

  after_insert :
      (n m : String) (c d : ℕ)
      → get m (insert n c h.context.client_registry) ≡ some d
      → ((n ≡ m) × (c ≡ d)) ⊎ (get m h.context.client_registry ≡ some d)
  after_insert n m c d e =
      let inserted = sym (get-insert n m c h.context.client_registry) ∙ e in
      elim (Bool-cases (text_eq n m)) [
        | inl q ↦ inl ((eq_iff n m).0 q, cc (rw q at inserted))
        | inr q ↦ inr (rw q at inserted)
      ]

  -- The invariant after a task took a free name.
  pub Inv-takes :
      (c : ℕ) (credentials : Option ℕ) (n : String)
      → h.tasks c ≡ some (authorizing credentials)
      → get n h.context.client_registry ≡ none
      → Inv (record h {
        context = record (h.context) { client_registry = insert n c h.context.client_registry };
        tasks = set_task h.tasks c (some (resolving n));
      })
  Inv-takes c credentials n at free = record {
    held = λ m d e.
        at_task (λ x. Holds x m) c d (some (resolving n))
          (λ q. elim (after_insert n m c d e) [
            | inl (same, _) ↦ same
            | inr old ↦ absurd (subst (λ x. Holds x m) (ap h.tasks q ∙ at) (v.held m d old))
          ])
          (λ ne. elim (after_insert n m c d e) [
            | inl (_, same) ↦ absurd (ne (sym same))
            | inr old ↦ v.held m d old
          ]);
    registered = λ m d e.
        get-insert n m c h.context.client_registry
        ∙ elim (of_task (λ x. Holds x m) c d (some (resolving n)) e) [
          | inl (q, holds) ↦ ground (arith, eq_iff n m)
          | inr (q, holds) ↦ ground (arith, eq_iff n m, v.registered m d holds)
        ];
    unserved = λ m d e.
        at_task (λ x. Holds x m → IsResolving x ⊎ (get m h.context.pending_connections ≡ none)) c d
          (some (resolving n)) (λ q _. inl tt) (λ _. v.unserved m d) e;
    fresh = λ d e.
        at_task (λ x. x ≡ none) c d (some (resolving n)) (λ q. cc (v.fresh d e, at, q))
          (λ _. v.fresh d e);
  }
