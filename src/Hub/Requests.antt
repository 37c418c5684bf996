-- ===== src/Hub/Requests.antt =====
-- What becomes of a connection request: it is answered once, or it is queued and answered once when
-- the service it waits for registers.
use krossbar_bus.Common.{
  some_inj, ℕ, suc, ◌+◌, ◌≤◌, String, ◌≡◌, refl, ap, subst, ◌∙◌, ◌⊎◌, inl, inr, Bool, true, false,
  ◌&&◌, Option, none, some, List, [], ◌∷◌, ◌++◌, ◌==◌, if◌then◌else◌, arith, Bool-cases,
  Option-cases, Result, and_then, text_eq, eq_refl,
}
use krossbar_bus.Common.Maps.{get, get-insert, get-remove}
use krossbar_bus.Protocol.{Error}
use krossbar_bus.Hub.Context.{
  Request, Effect, respond, respond_with_fd, connection_request, flush, Attempt, Env, Policy,
  HubContext, send_connection_descriptors, send_all, waiters_of, resolve_pending_connections,
  push_waiter, wait_or_refuse, connect_or_wait, on_allowed, handle_connection_request,
}

same_request : Request → Request → Bool
same_request r q = r.connection == q.connection && r.message_id == q.message_id

answers_to : Request → Effect → ℕ
unfolding same_request
answers_to r (respond q result) = if same_request r q then 1 else 0
answers_to r (respond_with_fd q socket) = if same_request r q then 1 else 0
answers_to r (connection_request w i t s) = 0
answers_to r (flush c) = 0

-- How often a list of effects answers a request.
pub answers : Request → List Effect → ℕ
unfolding answers_to
answers r [] = 0
answers r (e ∷ es) = answers_to r e + answers r es

-- How often a request is among the waiters.
pub waits : Request → List (String × Request) → ℕ
unfolding same_request
waits r [] = 0
waits r ((n, q) ∷ ws) = (if same_request r q then 1 else 0) + waits r ws

pub waits-push :
    (r : Request) (ws : List (String × Request)) (n : String) (q : Request)
    → waits r ws ≤ waits r (ws ++ (n, q) ∷ [])
unfolding waits
waits-push r [] n q = omega arith
waits-push r ((m, p) ∷ ws) n q = omega (arith, waits-push r ws n q)

pub waits_nowhere : (r : Request) → waits r (waiters_of none) ≡ 0
unfolding waits waiters_of
waits_nowhere r = refl

pub answers-append :
    (r : Request) (es fs : List Effect) → answers r (es ++ fs) ≡ answers r es + answers r fs
unfolding answers
answers-append r [] fs = omega arith
answers-append r (e ∷ es) fs = omega (arith, answers-append r es fs)

answers-send :
    (r : Request) (attempt : Attempt) (n t : String) (q : Request) (w : ℕ)
    → answers r (send_connection_descriptors attempt n q t w) ≡ (if same_request r q then 1 else 0)
unfolding send_connection_descriptors answers
answers-send r attempt n t q w = ground arith

answers-send_all :
    (r : Request) (attempts : ℕ → Attempt) (ws : List (String × Request)) (t : String) (w : ℕ)
    → answers r (send_all attempts ws t w) ≡ waits r ws
unfolding send_all waits
answers-send_all r attempts [] t w = unfold answers in refl
answers-send_all r attempts ((n, q) ∷ ws) t w = omega (
  arith,
  answers-append r (send_connection_descriptors (attempts 0) n q t w)
      (send_all (λ k. attempts (suc k)) ws t w),
  answers-send r (attempts 0) n t q w,
  answers-send_all r (λ k. attempts (suc k)) ws t w,
)

-- When a service has registered, each request that waits for it is answered as often as it was
-- queued, no other request is answered, its queue is gone, and all other queues stay as they are.
pub resolve_lem :
    (env : Env) (t : String) (w : ℕ) (context : HubContext) (r : Request)
    → let (context', effects) = resolve_pending_connections env t w context in
      (answers r effects ≡ waits r (waiters_of (get t context.pending_connections)))
      × ((u : String)
          → get u context'.pending_connections
            ≡ (if text_eq t u then none else get u context.pending_connections))
      × (context'.client_registry ≡ context.client_registry)
unfolding resolve_pending_connections
resolve_lem env t w context r = (
  answers-send_all r env.attempts (waiters_of (get t context.pending_connections)) t w,
  λ u. get-remove t u context.pending_connections,
  refl,
)

same_request_self : (r : Request) → same_request r r ≡ true
unfolding same_request
same_request_self r = ground arith

-- The request was answered, and nothing else happened to the shared state.
abbrev pub IsAnswered : Request → HubContext → HubContext × List Effect → Type 0
IsAnswered r context (context', effects) = (answers r effects ≡ 1) × (context' ≡ context)

-- The request stands at the end of the queue for its target, and nothing was written.
abbrev pub IsQueued : String → String → Request → HubContext → HubContext × List Effect → Type 0
IsQueued n t r context (context', effects) =
    (effects ≡ [])
    × (get t context.client_registry ≡ none)
    × (get t context'.pending_connections
        ≡ some (waiters_of (get t context.pending_connections) ++ (n, r) ∷ []))
    × ((u : String)
        → text_eq t u ≡ false
        → get u context'.pending_connections ≡ get u context.pending_connections)

abbrev pub MayWait : Policy → String → String → Type 0
MayWait policy n t =
    (policy.check_connection_allowed n t ≡ some true) × (policy.check_service_exists t ≡ true)

respond-IsAnswered :
    (r : Request) (context : HubContext) (result : Result (Unit {0}) Error)
    → IsAnswered r context (context, respond r result ∷ [])
unfolding answers
respond-IsAnswered r context result = (ground (arith, same_request_self r), refl)

module _ (n t : String) (r : Request) (context : HubContext) where
  wait_or_refuse-Answered :
      (policy : Policy) (wait : Bool)
      → get t context.client_registry ≡ none
      → let result = wait_or_refuse policy n t r wait context in
        IsAnswered r context result
        ⊎ ((wait ≡ true) × (policy.check_service_exists t ≡ true) × IsQueued n t r context result)
  unfolding wait_or_refuse
  wait_or_refuse-Answered policy false free = inl (respond-IsAnswered r context _)
  wait_or_refuse-Answered policy true free = elim (Bool-cases (policy.check_service_exists t)) [
    | inl e ↦ rw e (inr (refl, refl, queued free))
    | inr e ↦ rw e (inl (respond-IsAnswered r context _))
  ]
    where
      queued :
          get t context.client_registry ≡ none
          → IsQueued n t r context (push_waiter t n r context, [])
      queued free = (
        refl,
        free,
        get-insert t t _ context.pending_connections ∙ rw eq_refl,
        λ u e. get-insert t u _ context.pending_connections ∙ rw e,
      )

  on_allowed-Answered :
      (env : Env) (wait allowed : Bool)
      → let result = on_allowed env n t r wait context allowed in
        IsAnswered r context result
        ⊎ ((wait ≡ true)
            × (allowed ≡ true)
            × ((env.policy context.permissions).check_service_exists t ≡ true)
            × IsQueued n t r context result)
  unfolding on_allowed
  on_allowed-Answered env wait false = inl (respond-IsAnswered r context _)
  on_allowed-Answered env wait true = elim (Option-cases (get t context.client_registry)) [
    | inr (w, e) ↦
        rw (e, connect_or_wait)
          (inl (answers-send r (env.attempts 0) n t r w ∙ rw same_request_self, refl))
    | inl e ↦
        rw (e, connect_or_wait)
          (elim (wait_or_refuse-Answered (env.policy context.permissions) wait e) [
            | inl a ↦ inl a
            | inr (asked, known, q) ↦ inr (asked, refl, known, (q.0, refl, q.2, q.3))
          ])
  ]

  -- A connection request that is handled is answered exactly once and leaves the shared state as it
  -- is, or it is put at the end of the queue for its target, and nothing is written. It is queued
  -- only if it may connect, asked to wait, and its target is not registered but has a service file.
  pub handle_connection_request_lem :
      (env : Env) (wait : Bool) (result : HubContext × List Effect)
      → handle_connection_request env n t r wait context ≡ some result
      → IsAnswered r context result
        ⊎ ((wait ≡ true)
            × MayWait (env.policy context.permissions) n t
            × IsQueued n t r context result)
  unfolding handle_connection_request
  handle_connection_request_lem env wait result h =
      go ((env.policy context.permissions).check_connection_allowed n t) refl h
    where
      go :
          (o : Option Bool)
          → (env.policy context.permissions).check_connection_allowed n t ≡ o
          → and_then o (λ allowed. some (on_allowed env n t r wait context allowed)) ≡ some result
          → IsAnswered r context result
            ⊎ ((wait ≡ true)
                × MayWait (env.policy context.permissions) n t
                × IsQueued n t r context result)
      go none e h = cc
      go (some allowed) e h =
          subst
            (λ x.
              IsAnswered r context x
              ⊎ ((wait ≡ true)
                  × MayWait (env.policy context.permissions) n t
                  × IsQueued n t r context x))
            (some_inj h)
            (elim (on_allowed-Answered env wait allowed) [
              | inl a ↦ inl a
              | inr (asked, granted, known, q) ↦ inr (asked, (e ∙ ap some granted, known), q)
            ])
