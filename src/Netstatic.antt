-- ===== src/Netstatic.antt =====
-- monitoring/netstatic/static.go: traffic statistics for each network interface. The package's
-- variables are one record, `State`; a function that takes the lock is a function on it. `none`
-- is a panic (a write into a nil map, a ticker with a period that is not positive).
pub mod Data
pub mod Ops
pub mod Query
pub mod Control
pub mod Sums
pub mod Flush
pub mod Sampling
pub mod Expiry
pub mod Between
pub mod Config
pub mod Ready
