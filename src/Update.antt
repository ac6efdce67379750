-- ===== src/Update.antt =====
-- update/: which release the agent installs in its own place.
pub mod Releases
pub mod Check
pub mod Latest
pub mod Again
pub mod Pages
