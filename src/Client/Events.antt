-- ===== src/Client/Events.antt =====
-- krossbar-bus-lib/src/event.rs: events, over the channels of the crate `async_channel`.
use krossbar_bus.Common.{ℕ, suc, Bool, Option, none, some, Result, ◌≡◌}
use krossbar_bus.Protocol.{Error}
use krossbar_bus.Endpoints.World.{update}

-- What the program sends over events: that a connection is there again, or why it is not.
abbrev pub Notice : Type 0
Notice = Result (Unit {0}) Error

-- `async_channel::unbounded`: all clones of a receiver take from one queue, first in, first out.
pub record Channel : Type 1 where
  pub Queue : Type 0
  pub unbounded : Queue
  pub send : Notice → Queue → Queue
  pub recv : Queue → Option (Notice × Queue)
  pub recv-unbounded : recv unbounded ≡ none
  pub recv-send_unbounded : (n : Notice) → recv (send n unbounded) ≡ some (n, unbounded)
  pub recv-send :
      (n m : Notice) (q r : Queue) → recv q ≡ some (m, r) → recv (send n q) ≡ some (m, send n r)

module _ (channel : Channel) where
  open channel use {Queue, unbounded, send, recv}

  -- What the handles of a service share: each `Arc<AtomicBool>` is an address of `flags`, each `Event`
  -- one of `queues`; `next` is the address of the next allocation.
  pub record Store : Type 0 where
    pub flags : ℕ → Bool
    pub queues : ℕ → Queue
    pub next : ℕ

  -- `Event::new`
  unfoldable pub new : Store → ℕ × Store
  unfolding update
  new store = (
    store.next,
    record store { queues = update store.next unbounded store.queues; next = suc store.next },
  )

  -- `Event::emit`
  unfoldable pub emit : ℕ → Notice → Store → Store
  unfolding update
  emit event n store = record store {
    queues = update event (send n (store.queues event)) store.queues;
  }

  unfoldable pub received : ℕ → Store → Option (Notice × Queue) → Option (Notice × Store)
  unfolding update
  received event store none = none
  received event store (some (n, q)) =
      some (n, record store { queues = update event q store.queues })

  -- `Event::wait`; `none` is to wait on.
  unfoldable pub wait : ℕ → Store → Option (Notice × Store)
  unfolding received
  wait event store = received event store (recv (store.queues event))
