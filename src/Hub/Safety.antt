-- ===== src/Hub/Safety.antt =====
-- Access control in each step of the hub.
use krossbar_bus.Common.{
  ℕ, String, ◌≡◌, refl, sym, subst, inl, inr, Bool, true, false, Option, none, some, List, [], ◌∷◌,
  ◌++◌, Bool-cases, Result, ok, err, and_then, text_eq, if◌then◌else◌,
}
use krossbar_bus.Common.Maps.{contains_key}
use krossbar_bus.Protocol.{
  Error, internal_error, not_allowed, already_registered, HubMessage, register, connect,
  hub_register_method, hub_connect_method,
}
use krossbar_bus.Rpc.{Body, Message, call}
use krossbar_bus.Hub.Context.{
  Request, Effect, respond, flush, Env, HubContext, handle_connection_request, admit,
}
use krossbar_bus.Hub.Sessions.{
  Codec, Phase, authorizing, resolving, running, finished, Outcome, authorize, client_loop,
  HubState, Event, accepted, polled, woken, reaped, settle, accept, reap, wake, poll, step,
  check_endpoint, expected_registration, expected_connection, authorize_message, authorize_body,
  loop_message, loop_body, refuse, on_auth,
}
use krossbar_bus.Hub.Registry.{Holds, Inv}
use krossbar_bus.Hub.Access.{
  Grants, Sent, Sent-append, AllApproved, Rightful, Safe, handle_connection_request-Safe,
  resolve-Safe,
}

abbrev SafeOutcome : (String → String → Type 0) → HubContext → Outcome → Type 0
SafeOutcome P context none = Unit {0}
SafeOutcome P context (some (context', phase, effects)) = Safe P context (context', effects)

module _ (P : String → String → Type 0) (codec : Codec) (env : Env) (grants : Grants env P) where
  open codec use {Bson}

  module _ (context : HubContext) (approved : AllApproved P context) where
    check-Sent :
        (expected complaint endpoint : String) (r : Request)
        → Sent (Rightful P context) (check_endpoint expected complaint endpoint r)
    unfolding check_endpoint
    check-Sent expected complaint endpoint r = go (text_eq endpoint expected)
      where
        go :
            (b : Bool)
            → Sent
                (Rightful P context)
                (if b then [] else respond r (err (internal_error complaint)) ∷ [])
        go true = tt
        go false = tt

    answer-Sent :
        (before : List Effect) (r : Request) (result : Result (Unit {0}) Error)
        → Sent (Rightful P context) before
        → Sent (Rightful P context) (before ++ respond r result ∷ [])
    answer-Sent before r result sent =
        Sent-append (Rightful P context) before (respond r result ∷ []) sent tt

    refuse-Safe :
        (before : List Effect) (r : Request) (e : Error)
        → Sent (Rightful P context) before
        → SafeOutcome P context (refuse context before r e)
    unfolding refuse
    refuse-Safe before r e sent = (
      approved,
      Sent-append (Rightful P context) before (respond r (err e) ∷ flush r.connection ∷ []) sent tt,
    )

    admit-Safe :
        (n : String) (before : List Effect) (r : Request) (o : Option Bool)
        → Sent (Rightful P context) before
        → SafeOutcome P context (
            and_then
              (and_then o (λ allowed. some (admit n r.connection context allowed)))
              (on_auth n before r))
    unfolding admit on_auth
    admit-Safe n before r none sent = tt
    admit-Safe n before r (some true) sent = (approved, answer-Sent before r (ok tt) sent)
    admit-Safe n before r (some false) sent = refuse-Safe before r not_allowed sent

    authorize_message-Safe :
        (credentials : Option ℕ) (before : List Effect) (r : Request) (m : Result HubMessage String)
        → Sent (Rightful P context) before
        → SafeOutcome P context (authorize_message codec env credentials context before r m)
    unfolding authorize_message
    authorize_message-Safe credentials before r (err e) sent = refuse-Safe before r _ sent
    authorize_message-Safe credentials before r (ok (connect t w)) sent =
        refuse-Safe before r _ sent
    authorize_message-Safe credentials before r (ok (register n)) sent =
        elim (Bool-cases (contains_key n context.client_registry)) [
          | inl taken ↦ rw taken (refuse-Safe before r already_registered sent)
          | inr free ↦ rw free (
              admit-Safe n before r
                ((env.policy context.permissions).check_service_name_allowed credentials n) sent)
        ]

    authorize_body-Safe :
        (credentials : Option ℕ) (before : List Effect) (r : Request) (b : Body Bson)
        → Sent (Rightful P context) before
        → SafeOutcome P context (authorize_body codec env credentials context before r b)
    unfolding authorize_body
    authorize_body-Safe credentials before r (call bson) sent =
        authorize_message-Safe credentials before r (codec.from_bson bson) sent
    authorize_body-Safe credentials before r other sent = refuse-Safe before r _ sent

    authorize-Safe :
        (credentials : Option ℕ) (c : ℕ) (m : Option (Message Bson))
        → SafeOutcome P context (authorize codec env credentials c context m)
    unfolding authorize
    authorize-Safe credentials c none = (approved, tt)
    authorize-Safe credentials c (some m) =
        let r : Request = record { connection = c; message_id = m.message_id } in
        authorize_body-Safe credentials _ r m.body
          (check-Sent hub_register_method (expected_registration m.endpoint) m.endpoint r)

    loop_message-Safe :
        (n : String) (before : List Effect) (r : Request) (m : Result HubMessage String)
        → Sent (Rightful P context) before
        → SafeOutcome P context (loop_message codec env n context before r m)
    unfolding loop_message
    loop_message-Safe n before r (err e) sent = (approved, answer-Sent before r _ sent)
    loop_message-Safe n before r (ok (register t)) sent = (approved, answer-Sent before r _ sent)
    loop_message-Safe n before r (ok (connect t wait)) sent =
        go (handle_connection_request env n t r wait context) refl
      where
        go :
            (o : Option (HubContext × List Effect))
            → handle_connection_request env n t r wait context ≡ o
            → SafeOutcome P context
                (and_then o (λ (context', effects). some (context', running n, before ++ effects)))
        go none e = tt
        go (some (context', effects)) e =
            let safe =
              handle_connection_request-Safe P context approved env n t r wait (context', effects)
                grants e in
            (safe.0, Sent-append (Rightful P context) before effects sent safe.1)

    loop_body-Safe :
        (n : String) (before : List Effect) (r : Request) (b : Body Bson)
        → Sent (Rightful P context) before
        → SafeOutcome P context (loop_body codec env n context before r b)
    unfolding loop_body
    loop_body-Safe n before r (call bson) sent =
        loop_message-Safe n before r (codec.from_bson bson) sent
    loop_body-Safe n before r other sent = (approved, sent)

    client_loop-Safe :
        (n : String) (c : ℕ) (m : Option (Message Bson))
        → SafeOutcome P context (client_loop codec env n c context m)
    unfolding client_loop
    client_loop-Safe n c none = (approved, tt)
    client_loop-Safe n c (some m) =
        let r : Request = record { connection = c; message_id = m.message_id } in
        loop_body-Safe n _ r m.body
          (check-Sent hub_connect_method (expected_connection m.endpoint) m.endpoint r)

  abbrev SafeStep : HubState → Option (HubState × List Effect) → Type 0
  SafeStep h none = Unit {0}
  SafeStep h (some (h', effects)) = Safe P h.context (h'.context, effects)

  settle-SafeStep :
      (h : HubState) (c : ℕ) (o : Outcome) → SafeOutcome P h.context o → SafeStep h (settle h c o)
  unfolding settle
  settle-SafeStep h c none s = tt
  settle-SafeStep h c (some (context, phase, effects)) s = s

  module _ (h : HubState) (v : Inv h) (approved : AllApproved P h.context) where
    poll-SafeStep :
        (c : ℕ) (m : Option (Message Bson)) (o : Option Phase) → SafeStep h (poll codec env h c m o)
    unfolding poll
    poll-SafeStep c m (some (authorizing credentials)) =
        settle-SafeStep h c _ (authorize-Safe h.context approved credentials c m)
    poll-SafeStep c m (some (running n)) =
        settle-SafeStep h c _ (client_loop-Safe h.context approved n c m)
    poll-SafeStep c m (some (resolving n)) = (approved, tt)
    poll-SafeStep c m (some (finished n)) = (approved, tt)
    poll-SafeStep c m none = (approved, tt)

    wake-SafeStep : (c : ℕ) (o : Option Phase) → h.tasks c ≡ o → SafeStep h (some (wake env h c o))
    unfolding wake
    wake-SafeStep c (some (resolving n)) at =
        resolve-Safe P h.context approved env n c
          (v.registered n c (subst (λ x. Holds x n) (sym at) refl))
    wake-SafeStep c (some (authorizing credentials)) at = (approved, tt)
    wake-SafeStep c (some (running n)) at = (approved, tt)
    wake-SafeStep c (some (finished n)) at = (approved, tt)
    wake-SafeStep c none at = (approved, tt)

    reap-AllApproved : (c : ℕ) (o : Option Phase) → AllApproved P (reap h c o).context
    unfolding reap
    reap-AllApproved c (some (finished none)) = approved
    reap-AllApproved c (some (finished (some n))) = approved
    reap-AllApproved c (some (authorizing credentials)) = approved
    reap-AllApproved c (some (resolving n)) = approved
    reap-AllApproved c (some (running n)) = approved
    reap-AllApproved c none = approved

    accept-AllApproved : (o : Option (Option ℕ)) → AllApproved P (accept h o).context
    unfolding accept
    accept-AllApproved none = approved
    accept-AllApproved (some credentials) = approved

    step-SafeStep : (event : Event Bson) → SafeStep h (step codec env h event)
    unfolding step
    step-SafeStep (accepted credentials) = (accept-AllApproved credentials, tt)
    step-SafeStep (polled c m) = poll-SafeStep c m (h.tasks c)
    step-SafeStep (woken c) = wake-SafeStep c (h.tasks c) refl
    step-SafeStep (reaped c) = (reap-AllApproved c (h.tasks c), tt)

    -- In one step of the hub, from a state in which the registry and the tasks agree and whatever
    -- is queued is approved: every connection request goes to the connection that the target is
    -- registered for, and is for an approved pair, and what is queued then is approved. Approved
    -- is any predicate that holds of all pairs that the permissions allow in this step.
    pub step-Safe :
        (event : Event Bson) (h' : HubState) (effects : List Effect)
        → step codec env h event ≡ some (h', effects)
        → AllApproved P h'.context × Sent (Rightful P h.context) effects
    step-Safe event h' effects e = subst (SafeStep h) e (step-SafeStep event)
