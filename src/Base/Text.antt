-- ===== src/Base/Text.antt =====
-- Go's strings as lists of bytes, and what the program uses of `strings` and `strconv`. Spaces and
-- letters are those of ASCII.
mod Defs
pub mod Fields
pub mod Bytes
pub mod Decimal
unfoldable pub use Defs.*
