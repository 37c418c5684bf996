-- ===== src/Samples/InterleavedRuns.antt =====
-- The hub with its awaits: a client connects to a service, and the service disconnects while the hub
-- writes under its lock.
use krossbar_bus.Common.{
  eq_iff, arith, ℕ, String, true, Option, none, some, List, [], ◌∷◌, ◌++◌, ◌≡◌, refl, ok,
}
use krossbar_bus.Common.Maps.{get, contains_key, insert, remove}
use krossbar_bus.Protocol.{HubMessage, register, connect, hub_register_method, hub_connect_method}
use krossbar_bus.Rpc.{call}
use krossbar_bus.Hub.Context.{Effect, respond, respond_with_fd, connection_request}
use krossbar_bus.Hub.Sessions.{new, Runs, running, finished}
use krossbar_bus.Hub.Access.{Grants, Sent}
use krossbar_bus.Hub.Pool.{
  at, writing, selecting, Pool, Event, accepted, polled, woken, goes_on, reaped, set_stage, is_kept,
}
use krossbar_bus.Hub.Interleaved.{turn, Turns, begin, then_turn}
use krossbar_bus.Hub.Interleaved.Abstract.{abstract}
use krossbar_bus.Hub.Interleaved.Allowed.{
  idle, AllTurnsGrant, interleaved_were_allowed, interleaving_refines_sessions,
}
use krossbar_bus.Hub.Interleaved.Guarded.{requests_reach_registered}
use krossbar_bus.Hub.Interleaved.Progress.{Alone, Settled, writer_settles, lock_comes_free}
use krossbar_bus.Hub.Interleaved.Stall.{hub_stalls}
use krossbar_bus.Hub.Policies.{env_of}
use krossbar_bus.Hub.Interleaved.Total.{interleaving_never_panics}
use krossbar_bus.Samples.{codec, machine, all_text, in_order_visits, attempts}
use krossbar_bus.Samples.HubStates.{lax}

abbrev ToService : String → String → Type 0
ToService initiator target = target ≡ "com.b"

lax_allows : Grants lax ToService
lax_allows p initiator target h = ground (arith, eq_iff target "com.b")

abbrev Played : Type 0
Played = Option (Pool HubMessage × List Effect)

abbrev then_play : List Effect → Played → Played
then_play es none = none
then_play es (some (p, fs)) = some (p, es ++ fs)

-- What comes of a list of events.
abbrev play : Played → List (Event HubMessage) → Played
play o [] = o
play none (event ∷ events) = none
play (some (p, es)) (event ∷ events) = play (then_play es (turn codec lax p.main event p)) events

-- A history that ends there, with what the permissions allowed.
abbrev Ends : Played → Type 0
Ends none = Unit {0}
Ends (some (p, es)) = (t : Turns codec (idle []) es p) × AllTurnsGrant ToService codec t

then-Ends :
    (p : Pool HubMessage) (es : List Effect) (event : Event HubMessage) (o : Played)
    → Ends (some (p, es))
    → turn codec lax p.main event p ≡ o
    → Ends (then_play es o)
then-Ends p es event none t e = tt
then-Ends p es event (some (q, fs)) (t, grants) e = (then_turn lax event t e, (grants, lax_allows))

played : (o : Played) (events : List (Event HubMessage)) → Ends o → Ends (play o events)
played o [] t = t
played none (event ∷ events) t = tt
played (some (p, es)) (event ∷ events) t =
    played (then_play es (turn codec lax p.main event p)) events
      (then-Ends p es event (turn codec lax p.main event p) t refl)

abbrev rested : Played → Pool HubMessage × List Effect
rested none = (idle [], [])
rested (some r) = r

abbrev asks : ℕ → String → HubMessage → Event HubMessage
asks c method m = polled c (some (record { message_id = 1; endpoint = method; body = call m }))

abbrev joins : ℕ → String → List (Event HubMessage)
joins c name =
    accepted (some (some 7))
    ∷ asks c hub_register_method (register name)
    ∷ goes_on c
    ∷ goes_on c
    ∷ woken c
    ∷ goes_on c
    ∷ []

-- Both have registered, and the client asks for the service: its task holds the lock, with two answers
-- to write. Then the service disconnects.
abbrev busy_events : List (Event HubMessage)
busy_events =
    joins 0 "com.a.client"
    ++ joins 1 "com.b"
    ++ asks 0 hub_connect_method (connect "com.b" true) ∷ goes_on 0 ∷ polled 1 none ∷ []

abbrev busy : Pool HubMessage × List Effect
busy = rested (play (some (idle [], [])) busy_events)

abbrev to_write : List Effect
to_write =
    connection_request 1 "com.a.client" "com.b" 10
    ∷ respond_with_fd (record { connection = 0; message_id = 1 }) 11
    ∷ []

busy-Ends : Ends (some busy)
unfolding turn idle get contains_key insert remove set_stage is_kept
busy-Ends = played (some (idle [], [])) busy_events (begin, tt)

busy_stages :
    (busy.0.stages 0 ≡ some (writing true to_write (running "com.a.client")))
    × (busy.0.stages 1 ≡ some (at (finished (some "com.b"))))
    × (busy.0.lock ≡ some 0)
unfolding turn idle get contains_key insert remove set_stage is_kept
busy_stages = (refl, refl, refl)

-- Both answers are written, while another client comes.
abbrev connected : Pool HubMessage × List Effect
connected = rested (play (some busy) (goes_on 0 ∷ accepted (some (some 7)) ∷ goes_on 0 ∷ []))

connected-Ends : Ends (some connected)
unfolding turn idle get contains_key insert remove set_stage is_kept
connected-Ends =
    played (some busy) (goes_on 0 ∷ accepted (some (some 7)) ∷ goes_on 0 ∷ []) busy-Ends

connected_wrote :
    connected.1
    ≡ respond (record { connection = 0; message_id = 1 }) (ok tt)
      ∷ respond (record { connection = 1; message_id = 1 }) (ok tt)
      ∷ to_write
unfolding turn idle get contains_key insert remove set_stage is_kept
connected_wrote = refl

interleaved_were_allowed_example : Sent (λ w. ToService) connected.1
interleaved_were_allowed_example =
    interleaved_were_allowed ToService codec [] connected.0 connected.1 connected-Ends.0
      connected-Ends.1

interleaving_refines_sessions_example :
    (fs : List Effect) × Runs codec (new []) fs (abstract busy.0)
interleaving_refines_sessions_example =
    interleaving_refines_sessions codec [] busy.0 busy.1 busy-Ends.0

-- The task that holds the lock goes on with its writes.
abbrev written_next : Pool HubMessage × List Effect
written_next = elim (turn codec lax busy.0.main (goes_on 0) busy.0) [
  | some next ↦ next
  | none ↦ (busy.0, [])
]

requests_reach_registered_example :
    Sent (λ w i t. get t busy.0.context.client_registry ≡ some w) written_next.1
unfolding turn idle get contains_key insert remove set_stage is_kept
requests_reach_registered_example =
    requests_reach_registered codec [] busy.0 written_next.0 busy.1 written_next.1 lax (goes_on 0)
      busy-Ends.0 refl

both_answers_are_written :
    (q : Pool HubMessage) × Alone codec lax 0 busy.0 to_write q
    × Settled codec lax busy.0 0 true (running "com.a.client") q
unfolding turn idle get contains_key insert remove set_stage is_kept
both_answers_are_written =
    writer_settles codec lax busy.0 0 true to_write (running "com.a.client") refl busy_stages.0

lock_comes_free_example :
    (q : Pool HubMessage) × (fs : List Effect) × Alone codec lax 0 busy.0 fs q
    × ((q.lock ≡ none) × (q.main ≡ selecting))
unfolding turn idle get contains_key insert remove set_stage is_kept
lock_comes_free_example =
    lock_comes_free codec lax [] busy.0 busy.1 0 busy-Ends.0 refl busy_stages.2

hub_stalls_example :
    (q : Pool HubMessage) × (turn codec lax busy.0.main (reaped 1) busy.0 ≡ some (q, []))
    × ((r : Pool HubMessage) (es : List Effect) → Turns codec q es r → (r ≡ q) × (es ≡ []))
unfolding turn idle get contains_key insert remove set_stage is_kept
hub_stalls_example = hub_stalls codec lax busy.0 1 0 "com.b" refl busy_stages.1 busy_stages.2

interleaving_never_panics_example :
    (next : Pool HubMessage × List Effect) × (turn codec
        (env_of (machine all_text) in_order_visits attempts)
        busy.0.main
        (goes_on 0)
        busy.0
      ≡ some next)
interleaving_never_panics_example =
    interleaving_never_panics codec (machine all_text) in_order_visits attempts [] busy.0 busy.1
      (goes_on 0) busy-Ends.0 (λ pid e. cc)
