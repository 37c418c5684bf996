-- ===== src/Client.antt =====
-- krossbar-bus-lib/src/client.rs and event.rs: connections to peers. `Events` is event.rs, `Calls` has
-- the requests of a `Client`, and `Handles` the future that looks after one connection.
pub mod Events
pub mod Calls
pub mod Handles
pub mod Retries
