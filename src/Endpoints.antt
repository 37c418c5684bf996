-- ===== src/Endpoints.antt =====
-- krossbar-bus-lib/src/endpoints: the endpoints that a service offers. `World` has the store that the
-- signals, the states and their handles share, `Signals` and `States` are signal.rs and state.rs,
-- and `Calls` is mod.rs.
pub mod World
pub mod Signals
pub mod States
pub mod Calls
pub mod Delivery
pub mod Broadcasts
pub mod Live
pub mod Registered
pub mod Answers
