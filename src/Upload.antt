-- ===== src/Upload.antt =====
-- server/files.go and server/file_stream.go: chunked file uploads.
pub mod Data
pub mod Spec
pub mod Lifecycle
pub mod Chunks
pub mod Commit
pub mod Layout
pub mod Tiles
pub mod Parts
pub mod Assembly
pub mod Steps
pub mod Transfer
pub mod Cancel
pub mod Tombstone
pub mod Refusal
