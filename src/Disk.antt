-- ===== src/Disk.antt =====
-- monitoring/unit/: the report on disks, their use, their list and their traffic.
pub mod Parts
pub mod Usage
pub mod Io
pub mod Dedup
pub mod Quota
