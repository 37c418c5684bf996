-- ===== src/Endpoints/States.antt =====
-- krossbar-bus-lib/src/endpoints/state.rs: states and their handles, which share a list of clients and
-- the current value.
use krossbar_bus.Common.{ℕ, suc, String, Bool, [], ◌∷◌, ◌++◌, if◌then◌else◌, Result, ok, err}
use krossbar_bus.Protocol.{Error, params_type_error}
use krossbar_bus.Endpoints.World.{Subscriber, Payload, World, update, respond, broadcast}

-- `Handle`
pub record Handle : Type 0 where
  pub handle_clients : ℕ
  pub handle_value : ℕ

-- `State<T>`
pub record State (T : Type 0) : Type 0 where
  pub state_clients : ℕ
  pub value : T
  pub current_value : ℕ

-- `State::handle`
unfoldable pub handle : {T : Type 0} → State T → Handle
handle s = record { handle_clients = s.state_clients; handle_value = s.current_value }

-- `State::get`, which `Deref` calls
unfoldable pub deref : {T : Type 0} → State T → T
deref s = s.value

module _ {U Bson : Type 0} where
  -- `Handle::value`
  unfoldable pub current : Handle → World U Bson → Bson
  current h w = w.values h.handle_value

  -- `Handle::add_client` after its second await: a subscriber that takes the response is kept.
  abbrev pub push_client : (Subscriber → Bool) → Handle → Subscriber → World U Bson → World U Bson
  push_client takes h s w =
      if takes s
      then record w {
        clients = update h.handle_clients (w.clients h.handle_clients ++ s ∷ []) w.clients;
      }
      else w

  -- `Handle::add_client` after its first await: the value that was read is sent.
  abbrev pub answer_client : Bson → Subscriber → World U Bson → World U Bson
  answer_client b s w = respond s (Payload.value b) w

  -- `Handle::add_client`, where nothing runs at its awaits: the value is read, sent, and the subscriber
  -- kept.
  unfoldable pub add_client :
      (Subscriber → Bool) → Handle → Subscriber → World U Bson → World U Bson
  unfolding update respond current
  add_client takes h s w = push_client takes h s (answer_client (current h w) s w)

  -- `State::new`
  unfoldable pub new :
      {T : Type 0}
      → (T → Result Bson String)
      → T
      → World U Bson
      → Result (State T) Error × World U Bson
  unfolding update
  new to_bson v w = elim (to_bson v) [
    | err e ↦ (err (params_type_error e), w)
    | ok bson ↦ (
      ok record { state_clients = w.next; value = v; current_value = w.next },
      record w {
        clients = update w.next [] w.clients;
        values = update w.next bson w.values;
        next = suc w.next;
      },
    )
  ]

  -- The future that `State::set` returns.
  unfoldable pub publish :
      {T : Type 0}
      → State T
      → Result Bson String
      → (Subscriber → Bool)
      → World U Bson
      → Result (Unit {0}) Error × World U Bson
  unfolding broadcast update
  publish s (err e) takes w = (err (params_type_error e), w)
  publish s (ok bson) takes w =
      let a = s.state_clients in
      let r = broadcast takes bson (w.clients a) w in
      (
        ok tt,
        record r.1 {
          clients = update a r.0 w.clients;
          values = update s.current_value bson w.values;
        },
      )

  -- `State::set`: the value changes at once, the subscribers learn of it when the future is polled.
  unfoldable pub set :
      {T : Type 0}
      → (T → Result Bson String)
      → T
      → State T
      → State T × ((Subscriber → Bool) → World U Bson → Result (Unit {0}) Error × World U Bson)
  unfolding publish
  set to_bson v s = (record s { value = v }, publish s (to_bson v))
