-- ===== src/Client/Calls.antt =====
-- krossbar-bus-lib/src/client.rs: the requests of a `Client`, which wait for the reconnection of the
-- peer and try again, in the steps that they take between two awaits.
use krossbar_bus.Common.{Option, none, some, Result, ok, err}
use krossbar_bus.Protocol.{Error}
use krossbar_bus.Client.Events.{Channel, Store, Notice, wait}
use krossbar_bus.Client.Handles.{Client}

-- Where a request stands: at the writer, or at the event of the reconnection.
pub data Stage : Type 0 where
  calling listening : Stage

-- What it goes on with: the writer took the request and gives something back, the writer failed, or
-- there is a notice.
pub data Heard (A : Type 0) : Type 0 where
  took : A → Heard A
  refused notified : Heard A

pub data Asked (B : Type 0) : Type 0 where
  goes_on : Stage → Asked B
  done : Result B Error → Asked B

module _ (channel : Channel) where
  unfoldable pub on_notice :
      {B : Type 0} → Store channel → Option (Notice × Store channel) → Asked B × Store channel
  on_notice store none = (goes_on listening, store)
  on_notice store (some (ok u, store2)) = (goes_on calling, store2)
  on_notice store (some (err e, store2)) = (done (err e), store2)

  -- The body that the three requests share.
  unfoldable pub request :
      {A B : Type 0}
      → (A → Result B Error)
      → Client
      → Stage
      → Heard A
      → Store channel
      → Asked B × Store channel
  unfolding on_notice wait
  request answer client calling (took a) store = (done (answer a), store)
  request answer client calling refused store = (goes_on listening, store)
  request answer client calling notified store = (goes_on calling, store)
  request answer client listening notified store =
      on_notice store (wait channel client.hub_reconnect_event store)
  request answer client listening other store = (goes_on listening, store)

  module _ {R : Type 0} where
    -- `Client::call`: what the writer gives back is the response to come.
    unfoldable pub call :
        Client → Stage → Heard (Result R Error) → Store channel → Asked R × Store channel
    unfolding request
    call = request (λ response. response)

    -- `Client::get`
    unfoldable pub get :
        Client → Stage → Heard (Result R Error) → Store channel → Asked R × Store channel
    unfolding call
    get = call

    -- `Client::subscribe`: what the writer gives back is the stream.
    unfoldable pub subscribe : Client → Stage → Heard R → Store channel → Asked R × Store channel
    unfolding request
    subscribe = request ok

  -- `Client::message`
  unfoldable pub message :
      Client → Stage → Heard (Unit {0}) → Store channel → Asked (Unit {0}) × Store channel
  unfolding request
  message = request ok
