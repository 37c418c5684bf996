-- ===== src/Endpoints/Calls.antt =====
-- krossbar-bus-lib/src/endpoints/mod.rs: the registration of endpoints and `handle_call`.
use krossbar_bus.Common.{ℕ, String, Bool, none, some, ◌&&◌, if◌then◌else◌, Result, ok, err, text_eq}
use krossbar_bus.Common.Maps.{Map, get, contains_key, insert, keys}
use krossbar_bus.Protocol.{
  Error, params_type_error, result_type_error, already_registered, not_allowed, no_endpoint,
  inspect_method,
}
use krossbar_bus.Rpc.{Message, Body}
use krossbar_bus.Endpoints.World.{Subscriber, Payload, World, InspectData, respond}
use krossbar_bus.Endpoints.Signals
use krossbar_bus.Endpoints.States

-- `MethodFunctionType`, with the state it may change.
abbrev pub MethodFunction : Type 0 → Type 0 → Type 0
MethodFunction U Bson = String → Bson → World U Bson → Result Bson Error × World U Bson

pub record Endpoints (U Bson : Type 0) : Type 0 where
  pub methods : Map (MethodFunction U Bson)
  pub signals : Map Signals.Handle
  pub states : Map States.Handle

-- The response to a call or to what is no request, from `Ok` and `Err`.
unfoldable pub payload : {Bson : Type 0} → Result Bson Error → Payload Bson
payload (ok b) = Payload.value b
payload (err e) = Payload.failure e

module _ {U Bson : Type 0} where
  -- The boxed function of `register_method` and `register_async_method`: the parameters are read, the
  -- function runs, its result is written.
  unfoldable pub internal_method :
      {P R : Type 0}
      → (Bson → Result P String)
      → (R → Result Bson String)
      → (String → P → World U Bson → R × World U Bson)
      → MethodFunction U Bson
  internal_method from_bson to_bson func client_name param w = elim (from_bson param) [
    | err e ↦ (err (params_type_error e), w)
    | ok p ↦
        let r = func client_name p w in
        elim (to_bson r.0) [ ok bson ↦ (ok bson, r.1) | err e ↦ (err (result_type_error e), r.1) ]
  ]

  -- `register_method` and `register_async_method`
  unfoldable pub register_method :
      {P R : Type 0}
      → (Bson → Result P String)
      → (R → Result Bson String)
      → String
      → (String → P → World U Bson → R × World U Bson)
      → Endpoints U Bson
      → Result (Unit {0}) Error × Endpoints U Bson
  unfolding contains_key insert internal_method
  register_method from_bson to_bson name func es =
      if contains_key name es.methods then (err already_registered, es) else (
        ok tt,
        record es { methods = insert name (internal_method from_bson to_bson func) es.methods },
      )

  unfoldable pub register_signal :
      {T : Type 0}
      → (T → Result Bson String)
      → String
      → Endpoints U Bson
      → World U Bson
      → Result (Signals.Signal T Bson) Error × Endpoints U Bson × World U Bson
  unfolding contains_key insert Signals.new Signals.handle
  register_signal to_bson name es w =
      if contains_key name es.signals
      then (err already_registered, es, w)
      else let r = Signals.new to_bson w in
        (ok r.0, record es { signals = insert name (Signals.handle r.0) es.signals }, r.1)

  unfoldable pub register_state :
      {T : Type 0}
      → (T → Result Bson String)
      → String
      → T
      → Endpoints U Bson
      → World U Bson
      → Result (States.State T) Error × Endpoints U Bson × World U Bson
  unfolding contains_key insert States.new States.handle
  register_state to_bson name v es w =
      if contains_key name es.states
      then (err already_registered, es, w)
      else let r = States.new to_bson v w in
        elim r.0 [
          | err e ↦ (err e, es, r.1)
          | ok s ↦ (ok s, record es { states = insert name (States.handle s) es.states }, r.1)
        ]

  -- `self.methods.keys()` and its two brothers: an answer lists the names of a map in an order of its own.
  unfoldable pub inspect : Endpoints U Bson → InspectData
  unfolding keys
  inspect es = record {
    methods = keys es.methods;
    signals = keys es.signals;
    states = keys es.states;
  }

  unfoldable pub call_endpoint :
      Endpoints U Bson → String → Subscriber → String → Bson → World U Bson → World U Bson
  unfolding get respond payload States.current
  call_endpoint es client_name request endpoint params w = elim (get endpoint es.methods) [
    | some method ↦ let r = method client_name params w in respond request (payload r.0) r.1
    | none ↦ elim (get endpoint es.states) [
      | some state ↦ respond request (Payload.value (States.current state w)) w
      | none ↦ respond request (Payload.failure no_endpoint) w
    ]
  ]

  unfoldable pub subscribe_endpoint :
      (Subscriber → Bool) → Endpoints U Bson → Subscriber → String → World U Bson → World U Bson
  unfolding get respond Signals.add_client States.add_client
  subscribe_endpoint takes es request endpoint w = elim (get endpoint es.signals) [
    | some signal ↦ Signals.add_client signal request w
    | none ↦ elim (get endpoint es.states) [
      | some state ↦ States.add_client takes state request w
      | none ↦ respond request (Payload.failure no_endpoint) w
    ]
  ]

  unfoldable pub tell_endpoint :
      Endpoints U Bson → String → String → Bson → World U Bson → World U Bson
  unfolding get
  tell_endpoint es client_name endpoint body w = elim (get endpoint es.methods) [
    | some method ↦ (method client_name body w).1
    | none ↦ w
  ]

  -- `handle_call`, of a request that has its body; the first argument is the feature `inspection`.
  unfoldable pub handle_call :
      Bool
      → (Subscriber → Bool)
      → Endpoints U Bson
      → String
      → ℕ
      → Message Bson
      → World U Bson
      → World U Bson
  unfolding call_endpoint subscribe_endpoint tell_endpoint respond inspect
  handle_call inspection takes es client_name writer m w =
      let request : Subscriber = (m.message_id, writer) in
      elim m.body [
        | Body.message body ↦ tell_endpoint es client_name m.endpoint body w
        | Body.call params ↦
            if inspection && text_eq m.endpoint inspect_method
            then respond request (Payload.inspection (inspect es)) w
            else call_endpoint es client_name request m.endpoint params w
        | Body.subscription ↦ subscribe_endpoint takes es request m.endpoint w
        | _ ↦ respond request (Payload.failure not_allowed) w
      ]
