-- ===== src/Endpoints/World.antt =====
-- krossbar-bus-lib/src/endpoints: what the endpoints share. Each `Arc<Mutex<..>>` is an address of
-- the store, so that a `Signal` and its `Handle` name the same list of clients. A method of the user
-- may change all of it.
use krossbar_bus.Common.{ℕ, String, Bool, List, [], ◌∷◌, ◌==◌, if◌then◌else◌}
use krossbar_bus.Protocol.{Error}

-- A subscription: the message id and the writer.
abbrev pub Subscriber : Type 0
Subscriber = ℕ × ℕ

-- krossbar-bus-common/src/protocols/inspections.rs, `InspectData`
pub record InspectData : Type 0 where
  pub methods : List String
  pub signals : List String
  pub states : List String

-- What a response carries.
pub data Payload (Bson : Type 0) : Type 0 where
  value : Bson → Payload Bson
  inspection : InspectData → Payload Bson
  failure : Error → Payload Bson

-- `sent` has the responses written, the newest first; `next` is the address of the next allocation;
-- `user` is what the functions of the service keep.
pub record World (U Bson : Type 0) : Type 0 where
  pub clients : ℕ → List Subscriber
  pub values : ℕ → Bson
  pub next : ℕ
  pub sent : List (Subscriber × Payload Bson)
  pub user : U

unfoldable pub update : {A : Type 0} → ℕ → A → (ℕ → A) → ℕ → A
update i a f j = if i == j then a else f j

module _ {U Bson : Type 0} where
  -- `respond`, of a request or of a writer; whether the peer takes the response is the caller's question.
  unfoldable pub respond : Subscriber → Payload Bson → World U Bson → World U Bson
  respond s p w = record w { sent = (s, p) ∷ w.sent }

  -- The loop of `Signal::emit` and `State::set`: each client is sent the value, those who took it stay.
  unfoldable pub broadcast :
      (Subscriber → Bool) → Bson → List Subscriber → World U Bson → List Subscriber × World U Bson
  unfolding respond
  broadcast takes b [] w = ([], w)
  broadcast takes b (s ∷ ss) w =
      let rest = broadcast takes b ss (respond s (value b) w) in
      if takes s then (s ∷ rest.0, rest.1) else rest
