-- ===== src/Endpoints/Answers.antt =====
-- krossbar-bus-lib/src/endpoints/mod.rs: how a call of a registered method, and a request
-- for what is not registered, are answered.
use krossbar_bus.Common.{
  ℕ, String, Bool, Bool-cases, false, none, some, Result, Result-cases, ok, err, ◌≡◌, refl, arith,
  inl, inr, text_eq, eq_refl,
}
use krossbar_bus.Common.Maps.{get, contains_key, get-insert}
use krossbar_bus.Protocol.{no_endpoint, params_type_error, result_type_error, inspect_method}
use krossbar_bus.Rpc.{Body}
use krossbar_bus.Endpoints.World.{Subscriber, Payload, World, respond}
use krossbar_bus.Endpoints.Calls

module _ {P R U Bson : Type 0} (from_bson : Bson → Result P String)
    (to_bson : R → Result Bson String) (func : String → P → World U Bson → R × World U Bson) where
  -- How a method may answer: with the result that its function returned, or saying that the result
  -- cannot be written, or, its function not run, that the parameters cannot be read.
  pub data Answered (client_name : String) (params : Bson) (w : World U Bson)
      : Payload Bson → World U Bson → Type 0 where
    ran :
        {p : P} {b : Bson}
        → from_bson params ≡ ok p
        → to_bson (func client_name p w).0 ≡ ok b
        → Answered client_name params w (Payload.value b) (func client_name p w).1
    unwritable :
        {p : P} {x : String}
        → from_bson params ≡ ok p
        → to_bson (func client_name p w).0 ≡ err x
        → Answered client_name params w
            (Payload.failure (result_type_error x))
            (func client_name p w).1
    unreadable :
        {x : String}
        → from_bson params ≡ err x
        → Answered client_name params w (Payload.failure (params_type_error x)) w

  internal_method-Answered :
      (client_name : String) (params : Bson) (w : World U Bson)
      → let r = Calls.internal_method from_bson to_bson func client_name params w in
        Answered client_name params w (Calls.payload r.0) r.1
  unfolding Calls.internal_method Calls.payload
  internal_method-Answered client_name params w = elim (Result-cases (from_bson params)) [
    | inr (x, e) ↦ rw (Calls.internal_method, e) (unreadable e)
    | inl (p, e) ↦ elim (Result-cases (to_bson (func client_name p w).0)) [
      | inl (b, d) ↦ rw (Calls.internal_method, e, d) (ran e d)
      | inr (x, d) ↦ rw (Calls.internal_method, e, d) (unwritable e d)
    ]
  ]

  pub register_method-get :
      (name : String) (es es2 : Calls.Endpoints U Bson)
      → Calls.register_method from_bson to_bson name func es ≡ (ok tt, es2)
      → get name es2.methods ≡ some (Calls.internal_method from_bson to_bson func)
  unfolding Calls.register_method
  register_method-get name es es2 h = elim (Bool-cases (contains_key name es.methods)) [
    | inl e ↦ ground arith
    | inr e ↦ ground (
      arith,
      get-insert name name (Calls.internal_method from_bson to_bson func) es.methods,
      eq_refl name,
    )
  ]

  -- A method registered under a name that is not the name of the inspection: a call of that name
  -- writes one answer, after what the function did: its result, or the error that says why the result
  -- cannot be written, or, without running the function, why the parameters cannot be read.
  pub registered_method_answers :
      (name : String) (es es2 : Calls.Endpoints U Bson) (inspection : Bool)
      (takes : Subscriber → Bool) (client_name : String) (writer id : ℕ) (params : Bson)
      (w : World U Bson)
      → Calls.register_method from_bson to_bson name func es ≡ (ok tt, es2)
      → text_eq name inspect_method ≡ false
      → (a : Payload Bson) × (w2 : World U Bson) × Answered client_name params w a w2
        × (Calls.handle_call inspection takes es2 client_name writer
              record { message_id = id; endpoint = name; body = Body.call params }
              w
            ≡ respond (id, writer) a w2)
  unfolding Calls.handle_call
  registered_method_answers name es es2 inspection takes client_name writer id params w h other =
      let r = Calls.internal_method from_bson to_bson func client_name params w in
      let there = register_method-get name es es2 h in
      (
        Calls.payload r.0,
        r.1,
        internal_method-Answered client_name params w,
        rw (Calls.call_endpoint, there) (ground arith),
      )

  internal_method_told :
      (client_name : String) (params : Bson) (p : P) (w : World U Bson)
      → from_bson params ≡ ok p
      → (Calls.internal_method from_bson to_bson func client_name params w).1
        ≡ (func client_name p w).1
  unfolding Calls.internal_method
  internal_method_told client_name params p w e =
      elim (Result-cases (to_bson (func client_name p w).0)) [
        | inl (b, d) ↦ rw (Calls.internal_method, e, d) refl
        | inr (x, d) ↦ rw (Calls.internal_method, e, d) refl
      ]

  -- A one-way message to a registered method, which can be read, runs the function.
  pub registered_method_told :
      (name : String) (es : Calls.Endpoints U Bson) (inspection : Bool) (takes : Subscriber → Bool)
      (client_name : String) (writer id : ℕ) (body : Bson) (p : P) (w : World U Bson)
      → get name es.methods ≡ some (Calls.internal_method from_bson to_bson func)
      → from_bson body ≡ ok p
      → Calls.handle_call inspection takes es client_name writer
          record { message_id = id; endpoint = name; body = Body.message body }
          w
        ≡ (func client_name p w).1
  unfolding Calls.handle_call
  registered_method_told name es inspection takes client_name writer id body p w there e =
      rw (Calls.tell_endpoint, there) (internal_method_told client_name body p w e)

-- A name that nothing is registered under, and is not the name of the inspection: a call of it and a
-- subscription to it are answered by `NoEndpoint`, and a one-way message changes nothing.
pub unknown_endpoint :
    {U Bson : Type 0} (inspection : Bool) (takes : Subscriber → Bool) (es : Calls.Endpoints U Bson)
    (client_name : String) (writer id : ℕ) (name : String) (b : Bson) (w : World U Bson)
    → get name es.methods ≡ none
    → get name es.signals ≡ none
    → get name es.states ≡ none
    → text_eq name inspect_method ≡ false
    → let told : Body Bson → World U Bson = λ body.
      Calls.handle_call inspection takes es client_name writer
        record { message_id = id; endpoint = name; body = body }
        w in
      (told (Body.call b) ≡ respond (id, writer) (Payload.failure no_endpoint) w)
      × (told Body.subscription ≡ respond (id, writer) (Payload.failure no_endpoint) w)
      × (told (Body.message b) ≡ w)
unfolding Calls.handle_call
unknown_endpoint inspection takes es client_name writer id name b w m s t other = (
  rw (Calls.call_endpoint, m, t) (ground arith),
  rw (Calls.subscribe_endpoint, s, t) refl,
  rw (Calls.tell_endpoint, m) refl,
)
