-- ===== src/Tun.antt =====
-- Policy routing of the TUN mode, in backend-go/internal/service/native/service.go.
pub mod Rules
pub mod Bypass
pub mod Drift
pub mod Install
mod Tests
