-- ===== src/Files.antt =====
-- server/files.go: the file operations of the server, other than uploads.
pub mod Dispatch
pub mod Search
pub mod Matches
pub mod Moves
pub mod Kept
