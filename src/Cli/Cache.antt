-- ===== src/Cli/Cache.antt =====
-- The `cache` command (src/offs/commands/cache.c).
pub mod Size
pub mod Move
pub mod Resize
pub mod Gc
pub mod Command
