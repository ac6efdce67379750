-- ===== src/Network.antt =====
-- monitoring/unit/net.go: the report on network interfaces and connections.
pub mod Interfaces
pub mod Connections
pub mod Speed
pub mod Totals
