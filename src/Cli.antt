-- ===== src/Cli.antt =====
-- The `offs` command line client (src/offs).
pub mod Paths
pub mod Host
pub mod Daemon
pub mod Resolve
pub mod Cache
pub mod Hex
pub mod Tree
pub mod Calls
pub mod Transfer
pub mod Client
pub mod Put
pub mod Streams
pub mod Main
pub mod Config
