-- ===== src/Service.antt =====
-- krossbar-bus-lib/src/service.rs: a service, its connection to the hub and its peers. `Register` has
-- the connection to the hub, `Poll` the main loop, `Connect` the connection to a peer. The other
-- modules have the proofs.
pub mod Register
pub mod Poll
pub mod Connect
pub mod Offers
pub mod Peers
pub mod Agree
pub mod Life
pub mod Panics
pub mod Reconnect
pub mod Retry
pub mod Serves
pub mod Told
pub mod Starved
pub mod Dropped
