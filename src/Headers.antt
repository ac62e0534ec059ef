-- ===== src/Headers.antt =====
-- Headers of Project-4/pox/pox/lib/packet: what `parse` reads from the bytes of a packet, and what
-- `hdr` writes. A value of `parsed` that is false is a packet that `parse` gave up.
pub mod Arp
pub mod Ethernet
pub mod RoundTrip
pub mod Frames
pub mod Ipv4
pub mod Checksum
pub mod Udp
pub mod Datagrams
mod Tests
