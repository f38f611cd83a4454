-- ===== src/Engine.antt =====
-- src/engine: the synchronisation engine.
pub mod Tasks
pub mod RateLimiter
pub mod Bandwidth
pub mod Progress
pub mod Offline
pub mod Dispatch
pub mod Worker
pub mod Errors
pub mod Status
pub mod Scan
mod Samples
pub mod Loop
pub mod Watcher
