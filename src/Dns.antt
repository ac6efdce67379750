-- ===== src/Dns.antt =====
-- dnsresolver/: names, addresses and the order in which they are dialled.
pub mod Resolver
pub mod Order
