-- ===== src/Service.antt =====
-- The service's own state, native/service.go: the profiles, the subscriptions and the selection.
pub mod Store
pub mod Profiles
pub mod Import
pub mod Steps
pub mod Subscriptions
pub mod AutoUpdate
mod Tests
