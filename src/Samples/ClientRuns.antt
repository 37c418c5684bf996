-- ===== src/Samples/ClientRuns.antt =====
-- Channels as lists, and the theorems on clients.
use krossbar_bus.Common.{
  Result, ℕ, Option, none, some, List, [], ◌∷◌, ◌++◌, ◌≡◌, refl, ok, err, false,
}
use krossbar_bus.Protocol.{Error, peer_disconnected, not_allowed}
use krossbar_bus.Client.Events.{Notice, Channel, Store, emit, wait}
use krossbar_bus.Client.Handles.{Client}
use krossbar_bus.Client.Calls.{Asked, done, took, call, message, subscribe}
use krossbar_bus.Client.Retries.{
  Happens, heard, fails, lost, outcome, requests_are_retried, emit_wakes_one,
}

abbrev pub take_first : List Notice → Option (Notice × List Notice)
take_first [] = none
take_first (n ∷ ns) = some (n, ns)

pub take_first_put :
    (n m : Notice) (q r : List Notice)
    → take_first q ≡ some (m, r)
    → take_first (q ++ n ∷ []) ≡ some (m, r ++ n ∷ [])
take_first_put n m [] r e = cc
take_first_put n m (x ∷ q) r e = cc

-- First in, first out.
abbrev pub fifo : Channel
fifo = record {
  Queue = List Notice;
  unbounded = [];
  send = λ n q. q ++ n ∷ [];
  recv = take_first;
  recv-unbounded = refl;
  recv-send_unbounded = λ n. refl;
  recv-send = take_first_put;
}

abbrev pub empty_store : Store fifo
empty_store = record { flags = λ a. false; queues = λ a. []; next = 0 }

one_waiter_is_woken :
    (after : Store fifo) × (wait fifo 0 (emit fifo 0 (err peer_disconnected) empty_store)
      ≡ some (err peer_disconnected, after))
    × (wait fifo 0 after ≡ none)
one_waiter_is_woken = emit_wakes_one 0 (err peer_disconnected) empty_store refl

abbrev caller : Client
caller = record { service_name = "com.b"; writer = 5; hub_reconnect_event = 0; outgoing = 0 }

requests_are_retried_example :
    let called : List (Happens (Result ℕ Error)) → Asked ℕ =
      outcome (call fifo) caller empty_store in
    let subscribed : List (Happens ℕ) → Asked ℕ = outcome (subscribe fifo) caller empty_store in
    let sent : List (Happens (Unit {0})) → Asked (Unit {0}) =
      outcome (message fifo) caller empty_store in
    (called (lost 2 (heard (took (ok 7)) ∷ [])) ≡ done (ok 7))
    × (called (lost 2 (fails (err not_allowed) [])) ≡ done (err not_allowed))
    × (subscribed (lost 2 (heard (took 9) ∷ [])) ≡ done (ok 9))
    × (subscribed (lost 2 (fails (err not_allowed) [])) ≡ done (err not_allowed))
    × (sent (lost 2 (heard (took tt) ∷ [])) ≡ done (ok tt))
    × (sent (lost 2 (fails (err not_allowed) [])) ≡ done (err not_allowed))
requests_are_retried_example =
    requests_are_retried caller 2 (ok 7) 9 not_allowed [] [] [] empty_store refl
