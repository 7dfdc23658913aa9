-- ===== src/Routing.antt =====
-- The routing rules of the core and the test of a target against them (config_gen.go,
-- routing_test_tool.go).
pub mod Rules
pub mod Match
pub mod Scan
pub mod First
pub mod Ports
pub mod Local
pub mod Tests
