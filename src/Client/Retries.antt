-- ===== src/Client/Retries.antt =====
-- krossbar-bus-lib/src/client.rs and event.rs: requests that are tried again, and the event that they
-- wait for.
use krossbar_bus.Common.{
  ℕ, zero, suc, ◌≡◌, refl, ap, ◌∙◌, none, some, List, [], ◌∷◌, Result, ok, err, arith,
}
use krossbar_bus.Endpoints.World.{update}
use krossbar_bus.Protocol.{Error}
use krossbar_bus.Client.Events.{Channel, Store, Notice, emit, wait}
use krossbar_bus.Client.Handles.{Client}
use krossbar_bus.Client.Calls.{
  Stage, calling, Heard, took, refused, notified, Asked, goes_on, done, on_notice, request, call,
  subscribe, message,
}

-- What happens while a request runs: a notice is emitted on the event that it may wait for, or it goes
-- on.
pub data Happens (A : Type 0) : Type 0 where
  emitted : Notice → Happens A
  heard : Heard A → Happens A

-- The peer is gone, the request waits, and a notice comes.
abbrev pub fails : {A : Type 0} → Notice → List (Happens A) → List (Happens A)
fails n hs = heard refused ∷ emitted n ∷ heard notified ∷ hs

-- The peer is gone `n` times, and each time it is connected again.
abbrev pub lost : {A : Type 0} → ℕ → List (Happens A) → List (Happens A)
lost zero hs = hs
lost (suc n) hs = fails (ok tt) (lost n hs)

module _ {channel : Channel} where
  -- What is emitted on an event with nothing to receive is received, and nothing is left.
  emitted_is_received :
      (event : ℕ) (n : Notice) (store : Store channel)
      → store.queues event ≡ channel.unbounded
      → (after : Store channel) × (wait channel event (emit channel event n store)
          ≡ some (n, after))
        × (after.queues event ≡ channel.unbounded)
  unfolding wait emit update
  emitted_is_received event n store empty =
      let emitted = emit channel event n store in
      (
        record emitted { queues = update event channel.unbounded emitted.queues },
        ground (arith, channel.recv-send_unbounded n),
        ground arith,
      )

  -- An event wakes one of those who wait for it: what is emitted on an event with nothing to receive
  -- is received by the first `wait`, and the second one waits on.
  pub emit_wakes_one :
      (event : ℕ) (n : Notice) (store : Store channel)
      → store.queues event ≡ channel.unbounded
      → (after : Store channel) × (wait channel event (emit channel event n store)
          ≡ some (n, after))
        × (wait channel event after ≡ none)
  unfolding wait
  emit_wakes_one event n store empty =
      let (after, woken, left) = emitted_is_received event n store empty in
      (after, woken, rw (left, channel.recv-unbounded) refl)

  module _ {A B : Type 0} where
    -- A request of a client, from where it stands, through what happens.
    abbrev pub drive :
        (Client → Stage → Heard A → Store channel → Asked B × Store channel)
        → Client
        → List (Happens A)
        → Asked B × Store channel
        → Asked B × Store channel
    drive step client [] at = at
    drive step client (h ∷ hs) (done r, store) = (done r, store)
    drive step client (emitted n ∷ hs) (goes_on stage, store) =
        drive step client hs (goes_on stage, emit channel client.hub_reconnect_event n store)
    drive step client (heard h ∷ hs) (goes_on stage, store) =
        drive step client hs (step client stage h store)

    -- What becomes of a request that is made now.
    abbrev pub outcome :
        (Client → Stage → Heard A → Store channel → Asked B × Store channel)
        → Client
        → Store channel
        → List (Happens A)
        → Asked B
    outcome step client store hs = (drive step client hs (goes_on calling, store)).0

    -- A request that has returned does nothing more.
    ended :
        (step : Client → Stage → Heard A → Store channel → Asked B × Store channel)
        (client : Client) (hs : List (Happens A)) (store : Store channel) (r : Result B Error)
        → (drive step client hs (done r, store)).0 ≡ done r
    ended step client [] store r = refl
    ended step client (h ∷ hs) store r = refl

    module _ (answer : A → Result B Error) (client : Client) where
      lost_lem :
          (n : ℕ) (hs : List (Happens A)) (store : Store channel)
          → store.queues client.hub_reconnect_event ≡ channel.unbounded
          → (after : Store channel) × (after.queues client.hub_reconnect_event ≡ channel.unbounded)
            × (drive (request channel answer) client (lost n hs) (goes_on calling, store)
                ≡ drive (request channel answer) client hs (goes_on calling, after))
      unfolding request on_notice
      lost_lem zero hs store empty = (store, empty, refl)
      lost_lem (suc n) hs store empty =
          let (after, woken, left) =
            emitted_is_received client.hub_reconnect_event (ok tt) store empty in
          let (end, left2, same) = lost_lem n hs after left in (end, left2, rw woken same)

      retried :
          (n : ℕ) (a : A) (e : Error) (hs : List (Happens A)) (store : Store channel)
          → store.queues client.hub_reconnect_event ≡ channel.unbounded
          → let run : List (Happens A) → Asked B = outcome (request channel answer) client store in
            (run (lost n (heard (took a) ∷ hs)) ≡ done (answer a))
            × (run (lost n (fails (err e) hs)) ≡ done (err e))
      unfolding request on_notice
      retried n a e hs store empty =
          let (after, left, same) = lost_lem n (heard (took a) ∷ hs) store empty in
          let (after2, left2, same2) = lost_lem n (fails (err e) hs) store empty in
          let (end, woken, rest) =
            emitted_is_received client.hub_reconnect_event (err e) after2 left2 in
          (
            ap (λ (x : Asked B × Store channel). x.0) same
                ∙ ended (request channel answer) client hs after (answer a),
            ap (λ (x : Asked B × Store channel). x.0) same2
                ∙ rw woken (ended (request channel answer) client hs end (err e)),
          )

  -- A request to a peer, from a moment at which no notice is left over, is tried again after each
  -- reconnection of the peer, however often the peer is gone: a call returns the response to the first
  -- try that the writer takes, a subscription its stream, a message nothing; and the first error of a
  -- reconnection ends them all.
  pub requests_are_retried :
      {R : Type 0} (client : Client) (n : ℕ) (r : Result R Error) (stream : R) (e : Error)
      (calls : List (Happens (Result R Error))) (streams : List (Happens R))
      (sends : List (Happens (Unit {0}))) (store : Store channel)
      → store.queues client.hub_reconnect_event ≡ channel.unbounded
      → let called : List (Happens (Result R Error)) → Asked R =
          outcome (call channel) client store in
        let subscribed : List (Happens R) → Asked R = outcome (subscribe channel) client store in
        let sent : List (Happens (Unit {0})) → Asked (Unit {0}) =
          outcome (message channel) client store in
        (called (lost n (heard (took r) ∷ calls)) ≡ done r)
        × (called (lost n (fails (err e) calls)) ≡ done (err e))
        × (subscribed (lost n (heard (took stream) ∷ streams)) ≡ done (ok stream))
        × (subscribed (lost n (fails (err e) streams)) ≡ done (err e))
        × (sent (lost n (heard (took tt) ∷ sends)) ≡ done (ok tt))
        × (sent (lost n (fails (err e) sends)) ≡ done (err e))
  unfolding call subscribe message
  requests_are_retried client n r stream e calls streams sends store empty =
      let a = retried (λ x. x) client n r e calls store empty in
      let b = retried ok client n stream e streams store empty in
      let c = retried ok client n tt e sends store empty in (a.0, a.1, b.0, b.1, c.0, c.1)
