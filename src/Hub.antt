-- ===== src/Hub.antt =====
-- krossbar-hub/src: the hub. `Context` has its shared state and what clients ask of it (client.rs),
-- `Sessions` the task of one client and the main loop (hub.rs), `Program` how the hub starts and ends
-- (hub.rs and main.rs), the other modules the proofs.
pub mod Context
pub mod Sessions
pub mod Policies
pub mod Moves
pub mod Registry
pub mod Invariant
pub mod Steps
pub mod Requests
pub mod Order
pub mod Broker
pub mod Waiters
pub mod Program
pub mod Restart
pub mod Pool
pub mod Interleaved
pub mod Access
pub mod Safety
pub mod History
pub mod Crashes
pub mod Complaints
