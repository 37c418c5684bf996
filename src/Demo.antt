-- ===== src/Demo.antt =====
-- krossbar-bus-lib/examples/demo_server.rs: the service that greets its clients.
pub mod Tenth
use Prim.Native.String.{◌++◌ as text_append}
use Prim.Native.Nat.{◌%◌, ◌^◌}
use krossbar_bus.Common.{
  ℕ, ◌+◌, String, Bool, Option, none, some, List, [], ◌∷◌, ◌++◌, ◌≡◌, ◌==◌, if◌then◌else◌, Result,
  ok, err, and_then,
}
use krossbar_bus.Protocol.{Error}
use krossbar_bus.Endpoints.World.{Subscriber, World}
use krossbar_bus.Endpoints.Signals
use krossbar_bus.Endpoints.States
use krossbar_bus.Client.Events.{Channel}
use krossbar_bus.Service.Poll.{Service}
use krossbar_bus.Service.Offers.{register_signal, register_state}

-- `AtomicU64::fetch_add` with one.
unfoldable pub fetch_add : ℕ → ℕ
fetch_add n = (n + 1) % 2 ^ 64

-- The greeting.
abbrev pub hello : String → String
hello name = text_append "Hello, " name

-- What the closure of the method `greet` keeps.
pub record Greeter (Bson : Type 0) : Type 0 where
  pub signal : Signals.Signal ℕ Bson
  pub state : States.State (ℕ × String)
  pub client_counter : ℕ

-- A future that changes what the endpoints share, to be awaited.
abbrev pub Sender : Type 0 → Type 0 → Type 0
Sender U Bson = World U Bson → Result (Unit {0}) Error × World U Bson

module _ {U Bson : Type 0} where
  unfoldable pub unwrap : Result (Unit {0}) Error × World U Bson → Option (World U Bson)
  unwrap (ok u, w) = some w
  unwrap (err e, w) = none

  unfoldable pub await : Option (Sender U Bson) → World U Bson → Option (World U Bson)
  unfolding unwrap
  await none w = some w
  await (some sender) w = unwrap (sender w)

module _ {U Bson : Type 0} (to_bson : ℕ × String → Result Bson String)
    (takes : Subscriber → Bool) where
  -- The state is set for each tenth client.
  unfoldable pub set_tenth :
      ℕ → String → States.State (ℕ × String) → States.State (ℕ × String) × Option (Sender U Bson)
  unfolding States.set
  set_tenth client_count name state =
      if client_count % 10 == 0
      then (let r = States.set {U = U} to_bson (client_count, name) state in
          (r.0, some (r.1 takes)))
      else (state, none)

  -- The method `greet`; `none` is a panic of an `unwrap`.
  unfoldable pub greet :
      String → Greeter Bson → World U Bson → Option (String × Greeter Bson × World U Bson)
  unfolding set_tenth Signals.emit unwrap await fetch_add
  greet name g w =
      let client_count = g.client_counter in
      let (state, sender) = set_tenth client_count name g.state in
      and_then (unwrap (Signals.emit takes g.signal client_count w)) (λ w2.
        and_then (await sender w2) (λ w3.
          some
            (hello name, record g { state = state; client_counter = fetch_add client_count }, w3)))

module _ {channel : Channel} {U Bson : Type 0} (to_bson : ℕ × String → Result Bson String)
    (count_to_bson : ℕ → Result Bson String) where
  unfoldable pub with_signal :
      States.State (ℕ × String)
      → Result (Signals.Signal ℕ Bson) Error × Service channel U Bson
      → Option (Greeter Bson × Service channel U Bson)
  with_signal state (err e, s) = none
  with_signal state (ok signal, s) =
      some (record { signal = signal; state = state; client_counter = 0 }, s)

  unfoldable pub with_state :
      Result (States.State (ℕ × String)) Error × Service channel U Bson
      → Option (Greeter Bson × Service channel U Bson)
  unfolding with_signal register_signal
  with_state (err e, s) = none
  with_state (ok state, s) = with_signal state (register_signal count_to_bson "client_count" s)

  -- The state and the signal of the server; `none` is a panic of an `unwrap`.
  unfoldable pub open_server :
      Service channel U Bson → Option (Greeter Bson × Service channel U Bson)
  unfolding with_state register_state
  open_server s = with_state (register_state to_bson "10th_client" (0, "") s)
