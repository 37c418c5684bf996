-- ===== src/Hub/Order.antt =====
-- The order in which the clients that wait for a service are served.
use krossbar_bus.Common.{ℕ, suc, String, ◌≡◌, refl, ◌∙◌, ap, List, [], ◌∷◌, ◌++◌, map, arith}
use krossbar_bus.Common.Maps.{get}
use krossbar_bus.Hub.Context.{
  Request, Effect, respond, respond_with_fd, connection_request, flush, Attempt, Env, HubContext,
  send_connection_descriptors, send_all, waiters_of, resolve_pending_connections,
}

-- The requests that are answered, in the order of the answers.
pub answered : List Effect → List Request
answered [] = []
answered (respond r result ∷ es) = r ∷ answered es
answered (respond_with_fd r s ∷ es) = r ∷ answered es
answered (connection_request w i t s ∷ es) = answered es
answered (flush c ∷ es) = answered es

answered-append : (es fs : List Effect) → answered (es ++ fs) ≡ answered es ++ answered fs
unfolding answered
answered-append [] fs = refl
answered-append (respond r result ∷ es) fs = ap (λ x. r ∷ x) (answered-append es fs)
answered-append (respond_with_fd r s ∷ es) fs = ap (λ x. r ∷ x) (answered-append es fs)
answered-append (connection_request w i t s ∷ es) fs = answered-append es fs
answered-append (flush c ∷ es) fs = answered-append es fs

answered-send :
    (attempt : Attempt) (i t : String) (r : Request) (w : ℕ)
    → answered (send_connection_descriptors attempt i r t w) ≡ r ∷ []
unfolding send_connection_descriptors answered
answered-send attempt i t r w = ground arith

answered-send_all :
    (attempts : ℕ → Attempt) (ws : List (String × Request)) (t : String) (w : ℕ)
    → answered (send_all attempts ws t w) ≡ map (λ x. x.1) ws
unfolding send_all
answered-send_all attempts [] t w = unfold answered in refl
answered-send_all attempts ((i, r) ∷ ws) t w =
    answered-append (send_connection_descriptors (attempts 0) i r t w)
      (send_all (λ k. attempts (suc k)) ws t w)
    ∙ rw (answered-send, answered-send_all (λ k. attempts (suc k)) ws t w)

-- When a service registers, the clients that wait for it are answered in the order in which they
-- were queued, each whether or not the connection succeeds, and nobody else is.
pub resolved_in_order :
    (env : Env) (t : String) (w : ℕ) (context : HubContext)
    → answered (resolve_pending_connections env t w context).1
      ≡ map (λ x. x.1) (waiters_of (get t context.pending_connections))
unfolding resolve_pending_connections
resolved_in_order env t w context =
    answered-send_all env.attempts (waiters_of (get t context.pending_connections)) t w
