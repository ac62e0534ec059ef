-- ===== src/Vns.antt =====
-- Project-4/pox_module/CSE425/VNSProtocol.py: the messages between the controller and the
-- `sr` router process. A Python string is a list of bytes.
pub mod Messages
pub mod Codec
pub mod Banners
pub mod Strip
pub mod Lengths
pub mod RoundTrip
pub mod Split
pub mod Template
mod Tests
