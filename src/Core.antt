-- ===== src/Core.antt =====
-- The life of the core (service.go): its start and stop, the watchdog, and what they read of the configuration.
pub mod Config
pub mod State
pub mod Start
pub mod Watchdog
pub mod Backoff
pub mod Sections
pub mod Claimed
pub mod Invariant
pub mod GivesUp
pub mod Status
pub mod Degraded
pub mod Tests
