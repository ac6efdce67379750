-- ===== src/Sshauth.antt =====
-- sshauth/sshauth.go: time-limited SSH keys in authorized_keys files. The world is the files on
-- disk and the timers that revoke leases; what the system answers is the record `Env`.
pub mod World
pub mod Ops
pub mod Reconcile
pub mod Prune
pub mod RoundTrip
pub mod Scans
pub mod Survivors
pub mod Timers
pub mod Expiry
