-- ===== src/Samples/EndpointRuns.antt =====
-- The theorems on endpoints, applied to a service whose values are numbers, of which 0 cannot be
-- serialised.
use krossbar_bus.Common.{
  ℕ, suc, ◌+◌, String, Bool, true, some, [], ◌∷◌, ◌≡◌, refl, Result, ok, err, if◌then◌else◌, ◌==◌,
}
use krossbar_bus.Common.Maps.{get}
use krossbar_bus.Protocol.{no_endpoint, already_registered, params_type_error}
use krossbar_bus.Rpc.{Body}
use krossbar_bus.Endpoints.World.{Subscriber, Payload, World, respond}
use krossbar_bus.Endpoints.Delivery.{last_to, member, filter}
use krossbar_bus.Endpoints.Signals
use krossbar_bus.Endpoints.States
use krossbar_bus.Endpoints.States.{push_client, answer_client}
use krossbar_bus.Endpoints.Calls
use krossbar_bus.Endpoints.Broadcasts.{emit_lem, set_lem, unserialisable_set}
use krossbar_bus.Endpoints.Live.{
  Life, born, is_set, subscribed, InStep, subscribers-InStep, overtaken_subscriber_is_stale,
}
use krossbar_bus.Endpoints.Registered.{
  registered_once, registered_signal_reaches, registered_state_answers, owner_and_callers_disagree,
}
use krossbar_bus.Endpoints.Answers.{Answered, registered_method_answers, unknown_endpoint}

abbrev pub to_bson : ℕ → Result ℕ String
to_bson x = if x == 0 then err "zero" else ok x

abbrev Numbers : Type 0
Numbers = World ℕ ℕ

abbrev pub quiet : Numbers
quiet = record { clients = λ a. []; values = λ a. 0; next = 0; sent = []; user = 0 }

abbrev pub no_endpoints : Calls.Endpoints ℕ ℕ
no_endpoints = record { methods = []; signals = []; states = [] }

abbrev pub all_take : Subscriber → Bool
all_take s = true

-- The second connection is gone.
abbrev first_takes : Subscriber → Bool
first_takes s = s.1 == 1

abbrev ticks : Signals.Signal ℕ ℕ
ticks = record { signal_clients = 0; marker = to_bson }

abbrev two_listen : Numbers
two_listen = record quiet { clients = λ a. (5, 1) ∷ (6, 2) ∷ []; next = 1 }

abbrev level : States.State ℕ
level = record { state_clients = 0; value = 3; current_value = 0 }

one_of_two_takes :
    ((Signals.emit first_takes ticks 4 two_listen).0 ≡ ok tt)
    × ((Signals.emit first_takes ticks 4 two_listen).1.clients 0
        ≡ filter first_takes ((5, 1) ∷ (6, 2) ∷ []))
    × ((t : Subscriber)
        → last_to t (Signals.emit first_takes ticks 4 two_listen).1.sent
          ≡ (if member t ((5, 1) ∷ (6, 2) ∷ []) then some (Payload.value 4) else last_to t []))
one_of_two_takes = emit_lem first_takes 4 ticks 4 two_listen refl

level_is_set :
    (((States.set to_bson 4 level).1 first_takes two_listen).0 ≡ ok tt)
    × (States.deref (States.set {U = ℕ} to_bson 4 level).0 ≡ 4)
    × (States.current
          (States.handle level)
          ((States.set to_bson 4 level).1 first_takes two_listen).1
        ≡ 4)
    × (((States.set to_bson 4 level).1 first_takes two_listen).1.clients 0
        ≡ filter first_takes ((5, 1) ∷ (6, 2) ∷ []))
    × ((t : Subscriber)
        → last_to t ((States.set to_bson 4 level).1 first_takes two_listen).1.sent
          ≡ (if member t ((5, 1) ∷ (6, 2) ∷ []) then some (Payload.value 4) else last_to t []))
level_is_set = set_lem first_takes 4 to_bson level 4 two_listen refl

abbrev born_state : Numbers
born_state = (States.new to_bson 3 quiet).1

-- The state is subscribed to, set to a value that cannot be serialised, and to one that can.
abbrev life :
    Life to_bson level born_state
      (States.set {U = ℕ} to_bson 4 (States.set {U = ℕ} to_bson 0 level).0).0
      ((States.set to_bson 4 (States.set {U = ℕ} to_bson 0 level).0).1 first_takes
        ((States.set to_bson 0 level).1 all_take
          (States.add_client all_take (States.handle level) (5, 1) born_state)).1).1
life = is_set first_takes 4 (is_set all_take 0 (subscribed all_take (5, 1) born))

subscribers-InStep_example :
    InStep to_bson
      (States.set {U = ℕ} to_bson 4 (States.set {U = ℕ} to_bson 0 level).0).0
      ((States.set to_bson 4 (States.set {U = ℕ} to_bson 0 level).0).1 first_takes
        ((States.set to_bson 0 level).1 all_take
          (States.add_client all_take (States.handle level) (5, 1) born_state)).1).1
unfolding States.new
subscribers-InStep_example = subscribers-InStep to_bson 3 quiet level refl life

-- A subscription reads 3, the state is set to 4, and the subscription goes on.
abbrev overtaken : Numbers
overtaken =
    push_client all_take (States.handle level) (7, 1)
      (answer_client 3 (7, 1) ((States.set to_bson 4 level).1 all_take born_state).1)

seventh_hears_old_value :
    (member (7, 1) (overtaken.clients 0) ≡ true)
    × (last_to (7, 1) overtaken.sent ≡ some (Payload.value 3))
    × (States.current (States.handle level) overtaken ≡ 4)
unfolding States.new States.current States.handle
seventh_hears_old_value =
    overtaken_subscriber_is_stale to_bson all_take 4 4 (7, 1) level born_state refl refl

abbrev with_signal : Calls.Endpoints ℕ ℕ
with_signal = record no_endpoints { signals = ("ticks", record { handle_clients = 0 }) ∷ [] }

abbrev with_state : Calls.Endpoints ℕ ℕ
with_state = record no_endpoints {
  states = ("level", record { handle_clients = 0; handle_value = 0 }) ∷ [];
}

abbrev with_other_state : Calls.Endpoints ℕ ℕ
with_other_state = record no_endpoints {
  states = ("ticks", record { handle_clients = 0; handle_value = 0 }) ∷ [];
}

registered_signal_reaches_example :
    last_to
      (5, 1)
      (Signals.emit first_takes ticks 4 (
        Calls.handle_call true first_takes with_signal "com.a" 1
          (record { message_id = 5; endpoint = "ticks"; body = Body.subscription })
          (Signals.new to_bson quiet).1)).1.sent
    ≡ some (Payload.value 4)
unfolding Calls.register_signal
registered_signal_reaches_example =
    registered_signal_reaches to_bson "ticks" no_endpoints true first_takes "com.a" 1 5 quiet ticks
      with_signal (Signals.new to_bson quiet).1 4 4 refl refl

registered_state_answers_example :
    Calls.handle_call true first_takes with_state "com.a" 1
      (record { message_id = 5; endpoint = "level"; body = Body.call 9 })
      ((States.set to_bson 4 level).1 first_takes born_state).1
    ≡ respond (5, 1) (Payload.value 4) ((States.set to_bson 4 level).1 first_takes born_state).1
unfolding Calls.register_state get
registered_state_answers_example =
    registered_state_answers to_bson "level" no_endpoints true first_takes "com.a" 1 5 9 3 quiet
      level with_state born_state 4 4 refl refl refl refl

owner_reads_what_callers_do_not :
    let (s3, first) = States.set {U = ℕ} to_bson 4 level in
    let w3 = (first first_takes born_state).1 in
    let (s4, second) = States.set {U = ℕ} to_bson 0 s3 in
    let (r, w4) = second first_takes w3 in
    (r ≡ err (params_type_error "zero"))
    × (States.deref s4 ≡ 0)
    × (Calls.handle_call true first_takes with_state "com.a" 1
          (record { message_id = 5; endpoint = "level"; body = Body.call 9 })
          w4
        ≡ respond (5, 1) (Payload.value 4) w3)
unfolding Calls.register_state get
owner_reads_what_callers_do_not =
    owner_and_callers_disagree to_bson "level" no_endpoints true first_takes "com.a" 1 5 9 3 quiet
      level with_state born_state 4 0 4 "zero" refl refl refl refl refl

-- A method that counts its calls.
abbrev pub count : String → ℕ → Numbers → ℕ × Numbers
count client_name x w = (x + w.user, record w { user = suc w.user })

abbrev pub with_method : Calls.Endpoints ℕ ℕ
with_method = record no_endpoints {
  methods = ("count", Calls.internal_method to_bson to_bson count) ∷ [];
}

count_replies :
    (a : Payload ℕ) × (w2 : Numbers) × Answered to_bson to_bson count "com.a" 7 quiet a w2
    × (Calls.handle_call true first_takes with_method "com.a" 1
          (record { message_id = 5; endpoint = "count"; body = Body.call 7 })
          quiet
        ≡ respond (5, 1) a w2)
unfolding Calls.register_method
count_replies =
    registered_method_answers to_bson to_bson count "count" no_endpoints with_method true
      first_takes "com.a" 1 5 7 quiet refl refl

other_is_unknown :
    let told : Body ℕ → Numbers = λ body.
      Calls.handle_call true first_takes with_signal "com.a" 1
        (record { message_id = 5; endpoint = "other"; body = body })
        quiet in
    (told (Body.call 7) ≡ respond (5, 1) (Payload.failure no_endpoint) quiet)
    × (told Body.subscription ≡ respond (5, 1) (Payload.failure no_endpoint) quiet)
    × (told (Body.message 7) ≡ quiet)
unfolding get
other_is_unknown =
    unknown_endpoint true first_takes with_signal "com.a" 1 5 "other" 7 quiet refl refl refl refl

zero_is_not_set :
    ((States.set to_bson 0 level).1 first_takes two_listen
      ≡ (err (params_type_error "zero"), two_listen))
    × (States.deref (States.set {U = ℕ} to_bson 0 level).0 ≡ 0)
zero_is_not_set = unserialisable_set to_bson first_takes level 0 two_listen "zero" refl

ticks_once :
    ((Calls.register_signal to_bson "ticks" with_signal (Signals.new to_bson quiet).1).0
      ≡ err already_registered)
    × ((Calls.register_signal to_bson "ticks" with_signal (Signals.new to_bson quiet).1).1
        ≡ with_signal)
    × ((Calls.register_state to_bson "ticks" 3 with_other_state born_state).0
        ≡ err already_registered)
    × ((Calls.register_state to_bson "ticks" 3 with_other_state born_state).1 ≡ with_other_state)
unfolding Calls.register_signal Calls.register_state
ticks_once =
    registered_once to_bson "ticks" no_endpoints 3 quiet (Signals.new to_bson quiet).1 born_state
      ticks level with_signal with_other_state refl refl
