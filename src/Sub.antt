-- ===== src/Sub.antt =====
-- sub_parse.go: from the text of a subscription to profiles. `net/url`, `encoding/base64` and
-- `encoding/json` are a parameter; the network request before the text is not modelled.
pub mod Uri
pub mod Parse
pub mod Content
pub mod Profiles
pub mod Lines
mod Tests
