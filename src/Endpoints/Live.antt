-- ===== src/Endpoints/Live.antt =====
-- krossbar-bus-lib/src/endpoints/state.rs: which subscribers of a state keep in step with it.
use krossbar_bus.Common.{
  String, Bool, true, some, Result, Result-cases, ok, Bool-cases, ◌≡◌, arith, inl, inr,
}
use krossbar_bus.Endpoints.World.{Subscriber, Payload, World, update, respond, broadcast}
use krossbar_bus.Endpoints.Delivery.{
  same_self, last_to, member, broadcast-filter, last_to-broadcast, member-filter, member-append,
}
use krossbar_bus.Endpoints.States.{
  State, handle, current, add_client, push_client, answer_client, new, set, publish,
}

module _ {T U Bson : Type 0} (to_bson : T → Result Bson String) where
  -- The life of a state: it is set to values, serialisable or not, and subscribed to. No future of
  -- `set` runs at an await of `add_client`.
  pub data Life (s0 : State T) (w0 : World U Bson) : State T → World U Bson → Type 0 where
    born : Life s0 w0 s0 w0
    is_set :
        {s : State T} {w : World U Bson} (takes : Subscriber → Bool) (v : T)
        → Life s0 w0 s w
        → Life s0 w0 (set {U = U} to_bson v s).0 ((set to_bson v s).1 takes w).1
    subscribed :
        {s : State T} {w : World U Bson} (takes : Subscriber → Bool) (t : Subscriber)
        → Life s0 w0 s w
        → Life s0 w0 s (add_client takes (handle s) t w)

  -- What each subscriber heard last is the current value.
  unfoldable pub InStep : State T → World U Bson → Type 0
  InStep s w =
      (t : Subscriber)
      → member t (w.clients s.state_clients) ≡ true
      → last_to t w.sent ≡ some (Payload.value (current (handle s) w))

  -- A set to a value that can be serialised, whatever happened before: the last response to each
  -- subscriber that the state keeps is that value.
  pub publish-InStep :
      (takes : Subscriber → Bool) (v : T) (b : Bson) (s : State T) (w : World U Bson)
      → to_bson v ≡ ok b
      → InStep (set {U = U} to_bson v s).0 ((set to_bson v s).1 takes w).1
  unfolding set publish InStep update current handle
  publish-InStep takes v b s w e = rw e (λ t m. ground (
    arith,
    broadcast-filter takes b (w.clients s.state_clients) w,
    last_to-broadcast takes b t (w.clients s.state_clients) w,
    member-filter takes t (w.clients s.state_clients),
  ))

  set-InStep :
      (takes : Subscriber → Bool) (v : T) (s : State T) (w : World U Bson)
      → InStep s w
      → InStep (set {U = U} to_bson v s).0 ((set to_bson v s).1 takes w).1
  unfolding set publish InStep update current handle
  set-InStep takes v s w i = elim (Result-cases (to_bson v)) [
    | inl (b, e) ↦ publish-InStep takes v b s w e
    | inr (x, e) ↦ rw e i
  ]

  add_client-InStep :
      (takes : Subscriber → Bool) (r : Subscriber) (s : State T) (w : World U Bson)
      → InStep s w
      → InStep s (add_client takes (handle s) r w)
  unfolding add_client InStep update current handle respond last_to
  add_client-InStep takes r s w i = elim (Bool-cases (takes r)) [
    | inl e ↦ rw e (λ t m. ground (arith, i t, member-append t r (w.clients s.state_clients)))
    | inr e ↦ rw e (λ t m. ground (arith, i t))
  ]

  new-InStep :
      (v : T) (w0 : World U Bson) (s0 : State T)
      → (new to_bson v w0).0 ≡ ok s0
      → InStep s0 (new to_bson v w0).1
  unfolding new InStep update member
  new-InStep v w0 s0 h = elim (Result-cases (to_bson v)) [
    | inl (b, e) ↦ λ t. ground arith
    | inr (x, e) ↦ λ t. ground arith
  ]

  Life-InStep :
      (s0 : State T) (w0 : World U Bson)
      → InStep s0 w0
      → {s : State T} {w : World U Bson} → Life s0 w0 s w
      → InStep s w
  Life-InStep s0 w0 i born = i
  Life-InStep s0 w0 i (is_set takes v l) = set-InStep takes v _ _ (Life-InStep s0 w0 i l)
  Life-InStep s0 w0 i (subscribed takes t l) = add_client-InStep takes t _ _ (Life-InStep s0 w0 i l)

  -- From a state just made on, set any number of times, to values that can be serialised or not, and
  -- subscribed to by anyone, taking the responses or not, where no set runs while a subscription is
  -- between the reading of the value and the push of the subscriber: the last response to each
  -- subscriber that the state keeps is the state's current value.
  pub subscribers-InStep :
      (v : T) (w0 : World U Bson) (s0 : State T)
      → (new to_bson v w0).0 ≡ ok s0
      → {s : State T} {w : World U Bson} → Life s0 (new to_bson v w0).1 s w
      → InStep s w
  subscribers-InStep v w0 s0 h = Life-InStep s0 (new to_bson v w0).1 (new-InStep v w0 s0 h)

  -- A set to a value that can be serialised, which runs after a subscription has read the old value and
  -- before its response: the subscriber takes the response and is kept, what it heard last is the old
  -- value, and the current value is the new one.
  pub overtaken_subscriber_is_stale :
      (takes : Subscriber → Bool) (v : T) (b : Bson) (t : Subscriber) (s : State T)
      (w : World U Bson)
      → to_bson v ≡ ok b
      → takes t ≡ true
      → let w2 =
          push_client takes
            (handle s)
            t
            (answer_client (current (handle s) w) t ((set to_bson v s).1 takes w).1) in
        (member t (w2.clients s.state_clients) ≡ true)
        × (last_to t w2.sent ≡ some (Payload.value (current (handle s) w)))
        × (current (handle s) w2 ≡ b)
  unfolding set publish handle current respond update last_to
  overtaken_subscriber_is_stale takes v b t s w e k =
      rw (e, k, publish)
        (
          ground (
            arith,
            same_self t,
            member-append t t (broadcast takes b (w.clients s.state_clients) w).0,
          ),
          ground (arith, same_self t),
          ground arith,
        )
