-- ===== src/Tests.antt =====
-- The theorems at concrete inputs.
pub mod Bytes
pub mod Client
pub mod Commands
pub mod Config
pub mod Daemon
pub mod Metrics
pub mod Lifecycle
pub mod Update
pub mod System
pub mod Cache
pub mod Calls
