-- ===== src/Samples/HubRuns.antt =====
-- The theorems on the hub, applied to the history of `HubStates`.
use krossbar_bus.Common.{
  ◌≤◌, map, text_eq, eq_iff, Bool-cases, arith, if◌then◌else◌, String, Bool, true, none, some, List,
  [], ◌∷◌, ◌++◌, ◌≡◌, refl, sym, ◌⊎◌, inl, inr,
}
use krossbar_bus.Common.Maps.{get, contains_key, insert, remove}
use krossbar_bus.Protocol.{HubMessage}
use krossbar_bus.Hub.Context.{
  Effect, respond_with_fd, connection_request, resolve_pending_connections, waiters_of,
}
use krossbar_bus.Hub.Sessions.{new, accepted, woken, step, Runs, start, then_step}
use krossbar_bus.Hub.Registry.{Inv, new-Inv}
use krossbar_bus.Hub.Steps.{step-Inv, Runs-Inv}
use krossbar_bus.Hub.Requests.{
  IsAnswered, IsQueued, MayWait, answers, waits, handle_connection_request_lem, resolve_lem,
}
use krossbar_bus.Hub.Order.{answered, resolved_in_order}
use krossbar_bus.Hub.Access.{Grants, Sent, AllApproved, Rightful}
use krossbar_bus.Hub.Safety.{step-Safe}
use krossbar_bus.Hub.History.{connected_were_allowed}
use krossbar_bus.Hub.Broker.{view, Step, actor, step_is_broker}
use krossbar_bus.Hub.Waiters.{waiting, waiters_are_answered}
use krossbar_bus.Samples.{codec}
use krossbar_bus.Samples.HubStates.{
  policy, lax, wrote, registers, connects, started, client_came, client_registered, client_served,
  client_waits, service_came, service_registered, service_served, client_request,
}

abbrev written : List Effect
written =
    ((((((([] ++ wrote started (accepted (some (some 7))))
                ++ wrote client_came (registers 0 "com.a.client"))
              ++ wrote client_registered (woken 0))
            ++ wrote client_served (connects 0 "com.b"))
          ++ wrote client_waits (accepted (some (some 8))))
        ++ wrote service_came (registers 1 "com.b"))
      ++ wrote service_registered (woken 1))

abbrev written_before : List Effect
written_before =
    (((((([] ++ wrote started (accepted (some (some 7))))
              ++ wrote client_came (registers 0 "com.a.client"))
            ++ wrote client_registered (woken 0))
          ++ wrote client_served (connects 0 "com.b"))
        ++ wrote client_waits (accepted (some (some 8))))
      ++ wrote service_came (registers 1 "com.b"))

history_before : Runs codec started written_before service_registered
unfolding step new get contains_key insert remove
history_before =
    (then_step lax (registers 1 "com.b")
      (then_step lax (accepted (some (some 8)))
        (then_step lax (connects 0 "com.b")
          (then_step lax (woken 0)
            (then_step lax (registers 0 "com.a.client")
              (then_step lax (accepted (some (some 7))) start refl) refl)
            refl)
          refl)
        refl)
      refl)

history : Runs codec started written service_served
unfolding step new get contains_key insert remove
history = then_step lax (woken 1) history_before refl

-- What the permissions allow.
abbrev ToService : String → String → Type 0
ToService client target = target ≡ "com.b"

lax_grants : Grants lax ToService
lax_grants p client target h = ground (arith, eq_iff target "com.b")

connected_were_allowed_example : Sent (λ w. ToService) written
unfolding step new get contains_key insert remove history history_before
connected_were_allowed_example =
    connected_were_allowed ToService codec [] service_served written history (
      ((((((tt, lax_grants), lax_grants), lax_grants), lax_grants), lax_grants), lax_grants),
      lax_grants,
    )

approved : AllApproved ToService service_registered.context
unfolding step new get contains_key insert remove
approved t = elim (Bool-cases (text_eq "com.b" t)) [
  | inl e ↦ rw e (sym ((eq_iff "com.b" t).0 e), tt)
  | inr e ↦ rw e tt
]

step-Safe_example :
    AllApproved ToService service_served.context
    × Sent
        (Rightful ToService service_registered.context)
        (connection_request 1 "com.a.client" "com.b" 10 ∷ respond_with_fd client_request 11 ∷ [])
unfolding step new get contains_key insert remove
step-Safe_example =
    step-Safe ToService codec lax lax_grants service_registered
      (Runs-Inv codec (new-Inv []) history_before) approved (woken 1) service_served
      (connection_request 1 "com.a.client" "com.b" 10 ∷ respond_with_fd client_request 11 ∷ []) refl

history_agrees : Inv service_served
history_agrees = Runs-Inv codec (new-Inv []) history

step-Inv_example : Inv service_served
unfolding step new get contains_key insert remove
step-Inv_example =
    step-Inv codec lax service_registered service_served (woken 1)
      (connection_request 1 "com.a.client" "com.b" 10 ∷ respond_with_fd client_request 11 ∷ [])
      (Runs-Inv codec (new-Inv []) history_before) refl

handle_connection_request_lem_example :
    IsAnswered client_request client_served.context (client_waits.context, [])
    ⊎ ((◌≡◌ {A = Bool} true true)
        × MayWait (policy client_served.context.permissions) "com.a.client" "com.b"
        × IsQueued "com.a.client" "com.b" client_request client_served.context
            (client_waits.context, []))
unfolding step new get contains_key insert remove
handle_connection_request_lem_example =
    handle_connection_request_lem "com.a.client" "com.b" client_request client_served.context lax
      true (client_waits.context, []) refl

resolve_lem_example :
    let (context', effects) =
      resolve_pending_connections lax "com.b" 1 service_registered.context in
    (answers client_request effects
      ≡ waits client_request
          (waiters_of (get "com.b" service_registered.context.pending_connections)))
    × ((u : String)
        → get u context'.pending_connections ≡ (
            if text_eq "com.b" u
            then none
            else get u service_registered.context.pending_connections))
    × (context'.client_registry ≡ service_registered.context.client_registry)
resolve_lem_example = resolve_lem lax "com.b" 1 service_registered.context client_request

resolved_in_order_example :
    answered (resolve_pending_connections lax "com.b" 1 service_registered.context).1
    ≡ map (λ x. x.1) (waiters_of (get "com.b" service_registered.context.pending_connections))
resolved_in_order_example = resolved_in_order lax "com.b" 1 service_registered.context

step_is_broker_example :
    Step
      (actor {Bson = HubMessage} service_registered (woken 1))
      (view service_registered.context)
      (view service_served.context)
unfolding step new get contains_key insert remove
step_is_broker_example = step_is_broker codec [] lax (woken 1) history_before refl

abbrev written_while_waiting : List Effect
written_while_waiting =
    ((([] ++ wrote client_waits (accepted (some (some 8))))
        ++ wrote service_came (registers 1 "com.b"))
      ++ wrote service_registered (woken 1))

while_waiting : Runs codec client_waits written_while_waiting service_served
unfolding step new get contains_key insert remove
while_waiting =
    then_step lax (woken 1)
      (then_step lax (registers 1 "com.b") (then_step lax (accepted (some (some 8))) start refl)
        refl)
      refl

history_until_waiting : Inv client_waits
unfolding step new get contains_key insert remove
history_until_waiting = Runs-Inv codec (new-Inv []) (
    then_step lax (connects 0 "com.b")
      (then_step lax (woken 0)
        (then_step lax (registers 0 "com.a.client")
          (then_step lax (accepted (some (some 7))) start refl) refl)
        refl)
      refl)

waiters_are_answered_example :
    waiting client_request "com.b" client_waits.context
    ≤ answers client_request written_while_waiting
unfolding step new get contains_key insert remove
waiters_are_answered_example =
    waiters_are_answered client_request "com.b" codec 1 history_until_waiting while_waiting refl
      (λ busy. busy)
