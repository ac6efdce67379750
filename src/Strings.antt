-- ===== src/Strings.antt =====
-- The functions of Go's `strings`, `bufio` and `strconv` that the agent calls, on lists of bytes.
-- White space is the six ASCII characters; Go's `TrimSpace` and `Fields` also know Unicode ones.
mod Defs
mod Search
pub mod Affixes
pub mod Lines
pub mod Trims
unfoldable pub use Defs.*
unfoldable pub use Search.*
