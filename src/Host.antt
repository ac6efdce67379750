-- ===== src/Host.antt =====
-- monitoring/unit/mem.go and monitoring/unit/cgroup.go: memory and processor limits of the host and
-- of the container.
pub mod World
pub mod Meminfo
pub mod Cgroup
pub mod Ram
pub mod Walk
pub mod Limits
pub mod Bounds
