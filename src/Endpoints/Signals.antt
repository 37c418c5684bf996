-- ===== src/Endpoints/Signals.antt =====
-- krossbar-bus-lib/src/endpoints/signal.rs: signals and their handles, which share a list of clients.
use krossbar_bus.Common.{ℕ, suc, String, Bool, [], ◌∷◌, ◌++◌, Result, ok, err}
use krossbar_bus.Protocol.{Error, params_type_error}
use krossbar_bus.Endpoints.World.{Subscriber, World, update, broadcast}

-- `Handle`
pub record Handle : Type 0 where
  pub handle_clients : ℕ

-- `Signal<T>`; the marker says how a `T` is written as a `Bson`, by `bson::to_bson`.
pub record Signal (T Bson : Type 0) : Type 0 where
  pub signal_clients : ℕ
  pub marker : T → Result Bson String

-- `Signal::handle`
unfoldable pub handle : {T Bson : Type 0} → Signal T Bson → Handle
handle s = record { handle_clients = s.signal_clients }

module _ {U Bson : Type 0} where
  -- `Handle::add_client`
  unfoldable pub add_client : Handle → Subscriber → World U Bson → World U Bson
  unfolding update
  add_client h s w =
      let a = h.handle_clients in record w { clients = update a (w.clients a ++ s ∷ []) w.clients }

  -- `Signal::new`
  unfoldable pub new :
      {T : Type 0} → (T → Result Bson String) → World U Bson → Signal T Bson × World U Bson
  unfolding update
  new to_bson w = (
    record { signal_clients = w.next; marker = to_bson },
    record w { clients = update w.next [] w.clients; next = suc w.next },
  )

  -- `Signal::emit`, when its future has run.
  unfoldable pub emit :
      {T : Type 0}
      → (Subscriber → Bool)
      → Signal T Bson
      → T
      → World U Bson
      → Result (Unit {0}) Error × World U Bson
  unfolding broadcast update
  emit takes s x w = elim (s.marker x) [
    | err e ↦ (err (params_type_error e), w)
    | ok bson ↦
        let a = s.signal_clients in
        let r = broadcast takes bson (w.clients a) w in
        (ok tt, record r.1 { clients = update a r.0 w.clients })
  ]
