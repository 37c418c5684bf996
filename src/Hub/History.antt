-- ===== src/Hub/History.antt =====
-- Access control over whole histories of the hub.
use krossbar_bus.Common.{String, List, [], ◌∷◌}
use krossbar_bus.Common.Maps.{get}
use krossbar_bus.Hub.Context.{
  Effect, respond, respond_with_fd, connection_request, flush, HubContext, waiters_of,
}
use krossbar_bus.Hub.Sessions.{Codec, HubState, new, Runs, start, then_step}
use krossbar_bus.Hub.Registry.{Inv, new-Inv}
use krossbar_bus.Hub.Steps.{Runs-Inv}
use krossbar_bus.Hub.Access.{Grants, Sent, Sent-append, AllApproved, Rightful}
use krossbar_bus.Hub.Safety.{step-Safe}

-- Whatever the permissions allowed in a step of the history, `P` holds of.
abbrev pub AllGrant :
    (P : String → String → Type 0) (codec : Codec) {origin h : HubState} {effects : List Effect}
    → Runs codec origin effects h
    → Type 0
AllGrant P codec start = Unit {0}
AllGrant P codec (then_step env event r e) = AllGrant P codec r × Grants env P

pub forget_connection :
    (P : String → String → Type 0) (context : HubContext) (es : List Effect)
    → Sent (Rightful P context) es
    → Sent (λ w. P) es
forget_connection P context [] sent = tt
forget_connection P context (connection_request w i t s ∷ es) sent =
    (sent.0.0, forget_connection P context es sent.1)
forget_connection P context (respond r result ∷ es) sent = forget_connection P context es sent
forget_connection P context (respond_with_fd r s ∷ es) sent = forget_connection P context es sent
forget_connection P context (flush c ∷ es) sent = forget_connection P context es sent

pub new-AllApproved :
    (P : String → String → Type 0) (dirs : List String) → AllApproved P (new dirs).context
unfolding new get waiters_of
new-AllApproved P dirs t = tt

module _ (P : String → String → Type 0) (codec : Codec) where
  pub Runs-Approved :
      {origin h : HubState} {effects : List Effect}
      → Inv origin
      → AllApproved P origin.context
      → (r : Runs codec origin effects h) → AllGrant P codec r
      → AllApproved P h.context × Sent (λ w. P) effects
  Runs-Approved v approved start grant = (approved, tt)
  Runs-Approved v approved (then_step {h} {h'} {es} {fs} env event r e) grant =
      let (approved', sent) = Runs-Approved v approved r grant.0 in
      let (approved'', sent') =
        step-Safe P codec env grant.1 h (Runs-Inv codec v r) approved' event h' fs e in
      (approved'', Sent-append (λ w. P) es fs sent (forget_connection P h.context fs sent'))

  -- In every history of a new hub, a service was sent a connection request only for an initiator that
  -- the permissions allowed in some step of the history: every predicate that holds of all the pairs
  -- that were allowed holds of all the pairs that were connected.
  pub connected_were_allowed :
      (dirs : List String) (h : HubState) (effects : List Effect)
      (r : Runs codec (new dirs) effects h)
      → AllGrant P codec r
      → Sent (λ w. P) effects
  connected_were_allowed dirs h effects r grant =
      (Runs-Approved (new-Inv dirs) (new-AllApproved P dirs) r grant).1
