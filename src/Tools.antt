-- ===== src/Tools.antt =====
-- The command line tools krossbar-monitor and krossbar-connect, between their terminals and peers.
pub mod Monitor
pub mod Inspect
pub mod Short
pub mod Listed
pub mod Commands
pub mod Texts
pub mod Lines
pub mod Starts
pub mod Watches
