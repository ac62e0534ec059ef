-- ===== src/Wire/Messages.antt =====
-- The messages between the controller and a switch.
pub mod Config
pub mod Symmetric
pub mod Ports
pub mod Queues
pub mod Bodies
pub mod PacketIn
pub mod Features
pub mod FlowMod
pub mod PacketOut
pub mod FlowRemoved
