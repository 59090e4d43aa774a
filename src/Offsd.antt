-- ===== src/Offsd.antt =====
-- The daemon `offsd` (src/offsd/main.c).
pub mod Args
pub mod ConfigFile
pub mod ParseArgs
pub mod Life
pub mod Startup
pub mod Listen
pub mod Flags
pub mod Loop
pub mod Watchdog
pub mod Shutdown
pub mod Uninstall
pub mod Auth
pub mod Daemonize
pub mod Run
