-- ===== src/Wire.antt =====
-- Byte-level protocols.
pub mod Bytes
mod BitOr
pub mod BigEndian
pub mod WebSocket
pub mod Shadowsocks
pub mod Socks
mod Tests
