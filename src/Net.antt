-- ===== src/Net.antt =====
-- Host names, addresses and URLs: the parsers of runtime/src/main.rs.
pub mod Checksum
pub mod Dns
pub mod Http
pub mod Ipv4
pub mod Url
