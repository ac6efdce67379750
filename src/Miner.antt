-- ===== src/Miner.antt =====
-- monitoring/unit/miner.go: the report on the miner.
pub mod Snapshot
pub mod Status
pub mod History
