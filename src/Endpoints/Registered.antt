-- ===== src/Endpoints/Registered.antt =====
-- krossbar-bus-lib/src/endpoints/mod.rs: what registering an endpoint means for the requests that
-- follow.
use krossbar_bus.Common.{
  refl, err, ℕ, String, Bool, Bool-cases, true, false, none, some, Result, Result-cases, ok, ◌≡◌,
  ◌∙◌, ap, arith, inl, inr, text_eq, eq_refl,
}
use krossbar_bus.Common.Maps.{Map, contains_key-get, get, contains_key, get-insert}
use krossbar_bus.Protocol.{Error, params_type_error, already_registered, inspect_method}
use krossbar_bus.Rpc.{Body}
use krossbar_bus.Endpoints.World.{Subscriber, Payload, World, update, respond}
use krossbar_bus.Endpoints.Delivery.{same, last_to, member-append}
use krossbar_bus.Endpoints.Broadcasts.{emit_lem, set_lem, unserialisable_set}
use krossbar_bus.Endpoints.Signals
use krossbar_bus.Endpoints.States
use krossbar_bus.Endpoints.Calls

same_refl : (s : Subscriber) → same s s ≡ true
unfolding same
same_refl s = ground arith

module _ {T U Bson : Type 0} (to_bson : T → Result Bson String) (name : String)
    (es : Calls.Endpoints U Bson) where
  register_signal-get :
      (w : World U Bson) (s : Signals.Signal T Bson) (es2 : Calls.Endpoints U Bson)
      (w2 : World U Bson)
      → Calls.register_signal to_bson name es w ≡ (ok s, es2, w2)
      → (get name es2.signals ≡ some (Signals.handle s)) × (s.marker ≡ to_bson)
  unfolding Calls.register_signal Signals.new Signals.handle
  register_signal-get w s es2 w2 h = elim (Bool-cases (contains_key name es.signals)) [
    | inl e ↦ ground arith
    | inr e ↦ ground (
      arith,
      get-insert name name (Signals.handle (Signals.new {U = U} to_bson w).0) es.signals,
      eq_refl name,
    )
  ]

  -- A signal that was registered under a name: to whoever then subscribes by that name, the last
  -- response after the next emission is the value emitted, if it can be serialised.
  pub registered_signal_reaches :
      (inspection : Bool) (takes : Subscriber → Bool) (client_name : String) (writer id : ℕ)
      (w : World U Bson) (s : Signals.Signal T Bson) (es2 : Calls.Endpoints U Bson)
      (w2 : World U Bson) (x : T) (b : Bson)
      → Calls.register_signal to_bson name es w ≡ (ok s, es2, w2)
      → to_bson x ≡ ok b
      → let w3 =
          Calls.handle_call inspection takes es2 client_name writer
            record { message_id = id; endpoint = name; body = Body.subscription }
            w2 in
        last_to (id, writer) (Signals.emit takes s x w3).1.sent ≡ some (Payload.value b)
  unfolding Calls.handle_call Signals.add_client Signals.handle update
  registered_signal_reaches inspection takes client_name writer id w s es2 w2 x b h e =
      let r = register_signal-get w s es2 w2 h in
      let w3 = Signals.add_client (Signals.handle s) (id, writer) w2 in
      let told = (emit_lem takes b s x w3 (ap (λ f. f x) r.1 ∙ e)).2 (id, writer) in
      rw (Calls.subscribe_endpoint, r.0)
        (ground (
          arith,
          told,
          member-append (id, writer) (id, writer) (w2.clients s.signal_clients),
          same_refl (id, writer),
        ))

  register_state-get :
      (v : T) (w : World U Bson) (s : States.State T) (es2 : Calls.Endpoints U Bson)
      (w2 : World U Bson)
      → Calls.register_state to_bson name v es w ≡ (ok s, es2, w2)
      → (get name es2.states ≡ some (States.handle s)) × (es2.methods ≡ es.methods)
  unfolding Calls.register_state States.new States.handle
  register_state-get v w s es2 w2 h = elim (Bool-cases (contains_key name es.states)) [
    | inl e ↦ ground arith
    | inr e ↦ elim (Result-cases (to_bson v)) [
      | inl (b, d) ↦
          let h0 : States.Handle = record { handle_clients = w.next; handle_value = w.next } in
          ground (arith, get-insert name name h0 es.states, eq_refl name)
      | inr (x, d) ↦ ground arith
    ]
  ]

  -- A state registered under a name that no method has and that is not the name of the inspection:
  -- a call of that name, after the owner set the state to a value that can be serialised, is answered
  -- with that value, and nothing but the answer is written for the call.
  pub registered_state_answers :
      (inspection : Bool) (takes : Subscriber → Bool) (client_name : String) (writer id : ℕ)
      (params : Bson) (v : T) (w : World U Bson) (s : States.State T) (es2 : Calls.Endpoints U Bson)
      (w2 : World U Bson) (x : T) (b : Bson)
      → Calls.register_state to_bson name v es w ≡ (ok s, es2, w2)
      → get name es.methods ≡ none
      → text_eq name inspect_method ≡ false
      → to_bson x ≡ ok b
      → let w3 = ((States.set to_bson x s).1 takes w2).1 in
        Calls.handle_call inspection takes es2 client_name writer
          record { message_id = id; endpoint = name; body = Body.call params }
          w3
        ≡ respond (id, writer) (Payload.value b) w3
  unfolding Calls.handle_call
  registered_state_answers inspection takes client_name writer id params v w s es2 w2 x b h free
        other e =
      let r = register_state-get v w s es2 w2 h in
      let now = (set_lem takes b to_bson s x w2 e).2 in
      let none_there : get name es2.methods ≡ none = ap (λ m. get name m) r.1 ∙ free in
      rw (Calls.call_endpoint, none_there, r.0) (ground (arith, now))

  -- A state registered under a name that no method has and that is not the name of the inspection, which
  -- its owner set to a value that can be serialised, and then to one that cannot: the future of the second
  -- call has the error, its owner reads the second value, and a call of the name is answered with the
  -- first one.
  pub owner_and_callers_disagree :
      (inspection : Bool) (takes : Subscriber → Bool) (client_name : String) (writer id : ℕ)
      (params : Bson) (v : T) (w : World U Bson) (s : States.State T) (es2 : Calls.Endpoints U Bson)
      (w2 : World U Bson) (x y : T) (b : Bson) (e2 : String)
      → Calls.register_state to_bson name v es w ≡ (ok s, es2, w2)
      → get name es.methods ≡ none
      → text_eq name inspect_method ≡ false
      → to_bson x ≡ ok b
      → to_bson y ≡ err e2
      → let (s3, first) = States.set {U = U} to_bson x s in
        let w3 = (first takes w2).1 in
        let (s4, second) = States.set {U = U} to_bson y s3 in
        let (r, w4) = second takes w3 in
        (r ≡ err (params_type_error e2))
        × (States.deref s4 ≡ y)
        × (Calls.handle_call inspection takes es2 client_name writer
              record { message_id = id; endpoint = name; body = Body.call params }
              w4
            ≡ respond (id, writer) (Payload.value b) w3)
  owner_and_callers_disagree inspection takes client_name writer id params v w s es2 w2 x y b e2 h
        free other e bad =
      let (s3, first) = States.set {U = U} to_bson x s in
      let w3 = (first takes w2).1 in
      let (same, reads) = unserialisable_set to_bson takes s3 y w3 e2 bad in
      (
        ap (λ r. r.0) same,
        reads,
        ap
              (λ (r : Result (Unit {0}) Error × World U Bson).
                Calls.handle_call inspection takes es2 client_name writer
                  record { message_id = id; endpoint = name; body = Body.call params } r.1)
              same
            ∙ registered_state_answers inspection takes client_name writer id params v w s es2 w2 x
                b h free other e,
      )

  contains_registered :
      {V : Type 0} (m : Map V) (v : V) → get name m ≡ some v → contains_key name m ≡ true
  contains_registered m v e = ground (arith, contains_key-get name m)

  -- A name under which a signal or a state was registered is refused for another one of its kind,
  -- which leaves the endpoints as they are.
  pub registered_once :
      (v : T) (w w2 w3 : World U Bson) (s : Signals.Signal T Bson) (t : States.State T)
      (es2 es3 : Calls.Endpoints U Bson)
      → Calls.register_signal to_bson name es w ≡ (ok s, es2, w2)
      → Calls.register_state to_bson name v es w ≡ (ok t, es3, w3)
      → ((Calls.register_signal to_bson name es2 w2).0 ≡ err already_registered)
        × ((Calls.register_signal to_bson name es2 w2).1 ≡ es2)
        × ((Calls.register_state to_bson name v es3 w3).0 ≡ err already_registered)
        × ((Calls.register_state to_bson name v es3 w3).1 ≡ es3)
  unfolding Calls.register_signal Calls.register_state
  registered_once v w w2 w3 s t es2 es3 h k =
      let a = contains_registered es2.signals _ (register_signal-get w s es2 w2 h).0 in
      let b = contains_registered es3.states _ (register_state-get v w t es3 w3 k).0 in
      (rw a refl, rw a refl, rw b refl, rw b refl)
