-- ===== src/Logs.antt =====
-- The log broker (log_stream.go).
pub mod Line
pub mod Broker
pub mod Recent
pub mod Registered
pub mod Replay
pub mod Tests
