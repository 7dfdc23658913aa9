-- ===== src/Storage.antt =====
-- The normal form of the stored configuration (storage/store.go).
pub mod Config
pub mod Modes
pub mod Tests
