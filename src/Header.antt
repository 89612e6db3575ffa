-- ===== src/Header.antt =====
-- The packet headers of relay-rust/src/relay. A header is its parsed data beside the raw bytes that
-- it was parsed from; the Rust types with and without `Mut` are one record here.
pub mod Ipv4
pub mod Ipv6
pub mod Ip
pub mod Udp
pub mod Tcp
pub mod Transport
pub mod Swap
