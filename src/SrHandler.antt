-- ===== src/SrHandler.antt =====
-- Project-4/pox_module/CSE425/srhandler.py: the TCP server that hands frames between the OpenFlow
-- side and the `sr` router processes. Each handler takes the listener and returns it with what it
-- did and how it ended. The connections' `send` is that of the `ltprotocol` library, a parameter.
pub mod Listener
pub mod Handlers
pub mod Interfaces
pub mod Clients
pub mod Replies
mod Tests
