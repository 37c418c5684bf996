-- ===== src/Hub/Access.antt =====
-- Access control: no service is connected to another unless the permissions allowed it.
use krossbar_bus.Common.{
  some_inj, ℕ, suc, String, ◌≡◌, refl, subst, inl, inr, Bool, true, false, Option, none, some, List,
  [], ◌∷◌, ◌++◌, Bool-cases, Option-cases, Result, ok, err, and_then, text_eq, eq_iff,
  if◌then◌else◌,
}
use krossbar_bus.Common.Maps.{get, get-insert, get-remove}
use krossbar_bus.Permissions.{Permissions}
use krossbar_bus.Hub.Context.{
  Request, Effect, respond, respond_with_fd, connection_request, flush, Attempt, Env, Policy,
  HubContext, send_connection_descriptors, send_all, waiters_of, resolve_pending_connections,
  push_waiter, wait_or_refuse, connect_or_wait, on_allowed, handle_connection_request,
}

-- Some environment allowed the pair: a predicate that holds of all pairs that are allowed.
abbrev pub Grants : Env → (String → String → Type 0) → Type 0
Grants env P =
    (p : Permissions) (i t : String)
    → (env.policy p).check_connection_allowed i t ≡ some true
    → P i t

-- Every connection request that was written is for a pair and a connection of which `Q` holds.
abbrev pub Sent : (ℕ → String → String → Type 0) → List Effect → Type 0
Sent Q [] = Unit {0}
Sent Q (connection_request w i t s ∷ es) = Q w i t × Sent Q es
Sent Q (respond r result ∷ es) = Sent Q es
Sent Q (respond_with_fd r s ∷ es) = Sent Q es
Sent Q (flush c ∷ es) = Sent Q es

abbrev pub Approved : (String → String → Type 0) → String → List (String × Request) → Type 0
Approved P t [] = Unit {0}
Approved P t ((i, r) ∷ ws) = P i t × Approved P t ws

-- Every waiter was approved when it was queued.
abbrev pub AllApproved : (String → String → Type 0) → HubContext → Type 0
AllApproved P context = (t : String) → Approved P t (waiters_of (get t context.pending_connections))

pub Sent-append :
    (Q : ℕ → String → String → Type 0) (es fs : List Effect)
    → Sent Q es
    → Sent Q fs
    → Sent Q (es ++ fs)
Sent-append Q [] fs p q = q
Sent-append Q (connection_request w i t s ∷ es) fs p q = (p.0, Sent-append Q es fs p.1 q)
Sent-append Q (respond r result ∷ es) fs p q = Sent-append Q es fs p q
Sent-append Q (respond_with_fd r s ∷ es) fs p q = Sent-append Q es fs p q
Sent-append Q (flush c ∷ es) fs p q = Sent-append Q es fs p q

Approved-append :
    (P : String → String → Type 0) (t : String) (ws : List (String × Request)) (i : String)
    (r : Request)
    → Approved P t ws
    → P i t
    → Approved P t (ws ++ (i, r) ∷ [])
Approved-append P t [] i r a p = (p, tt)
Approved-append P t ((j, q) ∷ ws) i r a p = (a.0, Approved-append P t ws i r a.1 p)

module _ (Q : ℕ → String → String → Type 0) where
  send-Sent :
      (attempt : Attempt) (i t : String) (r : Request) (w : ℕ)
      → Q w i t
      → Sent Q (send_connection_descriptors attempt i r t w)
  unfolding send_connection_descriptors
  send-Sent attempt i t r w q = go attempt.pair attempt.write_fails
    where
      go :
          (pair : Result (ℕ × ℕ) String) (fails : Bool)
          → Sent Q
              (send_connection_descriptors (record { pair = pair; write_fails = fails }) i r t w)
      go (err e) fails = tt
      go (ok (a, b)) true = tt
      go (ok (a, b)) false = (q, tt)

  send_all-Sent :
      (attempts : ℕ → Attempt) (ws : List (String × Request)) (t : String) (w : ℕ)
      → Approved (Q w) t ws
      → Sent Q (send_all attempts ws t w)
  unfolding send_all
  send_all-Sent attempts [] t w a = tt
  send_all-Sent attempts ((i, r) ∷ ws) t w a =
      Sent-append Q (send_connection_descriptors (attempts 0) i r t w)
        (send_all (λ k. attempts (suc k)) ws t w) (send-Sent (attempts 0) i t r w a.0)
        (send_all-Sent (λ k. attempts (suc k)) ws t w a.1)

-- A pair that was allowed, and the connection that the target is registered for.
abbrev pub Rightful : (String → String → Type 0) → HubContext → ℕ → String → String → Type 0
Rightful P context w i t = P i t × (get t context.client_registry ≡ some w)

abbrev pub Safe : (String → String → Type 0) → HubContext → HubContext × List Effect → Type 0
Safe P context (context', effects) = AllApproved P context' × Sent (Rightful P context) effects

module _ (P : String → String → Type 0) (context : HubContext)
    (approved : AllApproved P context) where
  push_waiter-AllApproved :
      (i t : String) (r : Request) → P i t → AllApproved P (push_waiter t i r context)
  unfolding push_waiter
  push_waiter-AllApproved i t r p u =
      let ws = waiters_of (get t context.pending_connections) in
      rw (get-insert t u (ws ++ (i, r) ∷ []) context.pending_connections) (go (text_eq t u) refl)
    where
      go :
          (b : Bool)
          → text_eq t u ≡ b
          → Approved P u (
              waiters_of (
                if b
                then some (waiters_of (get t context.pending_connections) ++ (i, r) ∷ [])
                else get u context.pending_connections))
      go true e =
          subst (λ x. Approved P x (waiters_of (get t context.pending_connections) ++ (i, r) ∷ []))
            ((eq_iff t u).0 e)
            (Approved-append P t (waiters_of (get t context.pending_connections)) i r (approved t)
              p)
      go false e = approved u

  wait_or_refuse-Safe :
      (policy : Policy) (i t : String) (r : Request) (wait : Bool)
      → P i t
      → Safe P context (wait_or_refuse policy i t r wait context)
  unfolding wait_or_refuse
  wait_or_refuse-Safe policy i t r false p = (approved, tt)
  wait_or_refuse-Safe policy i t r true p = elim (Bool-cases (policy.check_service_exists t)) [
    | inl e ↦ rw e (push_waiter-AllApproved i t r p, tt)
    | inr e ↦ rw e (approved, tt)
  ]

  connect_or_wait-Safe :
      (env : Env) (i t : String) (r : Request) (wait : Bool)
      → P i t
      → Safe P context (connect_or_wait env i t r wait context)
  unfolding connect_or_wait
  connect_or_wait-Safe env i t r wait p = elim (Option-cases (get t context.client_registry)) [
    | inl e ↦
        let refused = wait_or_refuse (env.policy context.permissions) i t r wait context in
        let same : refused ≡ connect_or_wait env i t r wait context = rw (e, connect_or_wait) in
        subst (Safe P context) same
          (wait_or_refuse-Safe (env.policy context.permissions) i t r wait p)
    | inr (w, e) ↦
        let sent = send_connection_descriptors (env.attempts 0) i r t w in
        let same : (context, sent) ≡ connect_or_wait env i t r wait context =
          rw (e, connect_or_wait) in
        subst (Safe P context) same
          (approved, send-Sent (Rightful P context) (env.attempts 0) i t r w (p, e))
  ]

  -- A request to connect gives a socket to the service that is registered under the target's name,
  -- or queues the request, and both only if the permissions allow the pair.
  pub handle_connection_request-Safe :
      (env : Env) (i t : String) (r : Request) (wait : Bool) (result : HubContext × List Effect)
      → Grants env P
      → handle_connection_request env i t r wait context ≡ some result
      → Safe P context result
  unfolding handle_connection_request
  handle_connection_request-Safe env i t r wait result grants h =
      go ((env.policy context.permissions).check_connection_allowed i t) refl h
    where
      go :
          (o : Option Bool)
          → (env.policy context.permissions).check_connection_allowed i t ≡ o
          → and_then o (λ allowed. some (on_allowed env i t r wait context allowed)) ≡ some result
          → Safe P context result
      go none e h = cc
      go (some false) e h =
          subst (Safe P context) (some_inj h) (unfold on_allowed in (approved, tt))
      go (some true) e h =
          subst (Safe P context) (some_inj h)
            (unfold on_allowed in connect_or_wait-Safe env i t r wait (grants _ i t e))

  rightful :
      (t : String) (w : ℕ)
      → get t context.client_registry ≡ some w
      → (ws : List (String × Request)) → Approved P t ws
      → Approved (Rightful P context w) t ws
  rightful t w e [] a = tt
  rightful t w e ((i, r) ∷ ws) a = ((a.0, e), rightful t w e ws a.1)

  -- When a service has registered, those who wait for it are connected to it.
  pub resolve-Safe :
      (env : Env) (t : String) (w : ℕ)
      → get t context.client_registry ≡ some w
      → Safe P context (resolve_pending_connections env t w context)
  unfolding resolve_pending_connections
  resolve-Safe env t w e = (
    λ u. rw (get-remove t u context.pending_connections) (go u (text_eq t u)),
    send_all-Sent (Rightful P context) env.attempts _ t w
        (rightful t w e (waiters_of (get t context.pending_connections)) (approved t)),
  )
    where
      go :
          (u : String) (b : Bool)
          → Approved P u (waiters_of (if b then none else get u context.pending_connections))
      go u true = tt
      go u false = approved u
