-- ===== src/Endpoints/Broadcasts.antt =====
-- What `Signal::emit` and `State::set` of krossbar-bus-lib/src/endpoints do to the subscribers.
use krossbar_bus.Common.{String, Bool, some, if◌then◌else◌, Result, ok, err, ◌≡◌, refl, arith}
use krossbar_bus.Protocol.{params_type_error}
use krossbar_bus.Endpoints.World.{Subscriber, Payload, World, update}
use krossbar_bus.Endpoints.Delivery.{last_to, member, filter, broadcast-filter, last_to-broadcast}
use krossbar_bus.Endpoints.Signals
use krossbar_bus.Endpoints.States

module _ {T U Bson : Type 0} (takes : Subscriber → Bool) (b : Bson) where
  -- Emitting a signal whose value can be serialised succeeds; the last response to each subscriber
  -- of the signal is then the value, the last response to anybody else is what it was, and of the
  -- subscribers exactly those who took the value remain, in their order.
  pub emit_lem :
      (s : Signals.Signal T Bson) (x : T) (w : World U Bson)
      → s.marker x ≡ ok b
      → ((Signals.emit takes s x w).0 ≡ ok tt)
        × ((Signals.emit takes s x w).1.clients s.signal_clients
            ≡ filter takes (w.clients s.signal_clients))
        × ((t : Subscriber)
            → last_to t (Signals.emit takes s x w).1.sent ≡ (
                if member t (w.clients s.signal_clients)
                then some (Payload.value b)
                else last_to t w.sent))
  unfolding Signals.emit update
  emit_lem s x w e =
      rw (Signals.emit, e)
        (
          refl,
          ground (arith, broadcast-filter takes b (w.clients s.signal_clients) w),
          λ t. last_to-broadcast takes b t (w.clients s.signal_clients) w,
        )

  -- Setting a state to a value that can be serialised, and running the future, succeeds; the state
  -- then has the value for its owner and for those who ask the service; the last response to each
  -- subscriber of the state is the value, the last response to anybody else is what it was, and of
  -- the subscribers exactly those who took the value remain, in their order.
  pub set_lem :
      (to_bson : T → Result Bson String) (s : States.State T) (v : T) (w : World U Bson)
      → to_bson v ≡ ok b
      → (((States.set to_bson v s).1 takes w).0 ≡ ok tt)
        × (States.deref (States.set {U = U} to_bson v s).0 ≡ v)
        × (States.current (States.handle s) ((States.set to_bson v s).1 takes w).1 ≡ b)
        × (((States.set to_bson v s).1 takes w).1.clients s.state_clients
            ≡ filter takes (w.clients s.state_clients))
        × ((t : Subscriber)
            → last_to t ((States.set to_bson v s).1 takes w).1.sent ≡ (
                if member t (w.clients s.state_clients)
                then some (Payload.value b)
                else last_to t w.sent))
  unfolding States.set States.publish States.deref States.current States.handle update
  set_lem to_bson s v w e = rw e (
    refl,
    refl,
    ground arith,
    ground (arith, broadcast-filter takes b (w.clients s.state_clients) w),
    λ t. last_to-broadcast takes b t (w.clients s.state_clients) w,
  )

-- Setting a state to a value that cannot be serialised: the future answers with the error and changes
-- and sends nothing, but the owner reads the new value already.
pub unserialisable_set :
    {T U Bson : Type 0} (to_bson : T → Result Bson String) (takes : Subscriber → Bool)
    (s : States.State T) (v : T) (w : World U Bson) (x : String)
    → to_bson v ≡ err x
    → ((States.set to_bson v s).1 takes w ≡ (err (params_type_error x), w))
      × (States.deref (States.set {U = U} to_bson v s).0 ≡ v)
unfolding States.set States.publish States.deref
unserialisable_set to_bson takes s v w x e = rw e (refl, refl)
