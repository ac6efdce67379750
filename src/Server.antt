-- ===== src/Server.antt =====
-- server/: the parts of the server connection, and the tasks that it starts.
pub mod Events
pub mod Seen
pub mod Redelivery
pub mod Acks
pub mod Loop
pub mod Recovery
pub mod Spacing
pub mod Tasks
pub mod Remote
pub mod Probes
pub mod Ping
pub mod Latency
