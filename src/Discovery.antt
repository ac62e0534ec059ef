-- ===== src/Discovery.antt =====
-- `Discovery` and `LLDPSender` of Project-4/pox/pox/openflow/discovery.py. Times are whole numbers of
-- the clock of `now`. An LLDP packet is the list of its TLVs, an Ethernet address its `toInt()`.
pub mod Originator
pub mod Origin
pub mod Sender
pub mod Handlers
pub mod Links
pub mod Reach
pub mod Rounds
mod Tests
