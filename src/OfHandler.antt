-- ===== src/OfHandler.antt =====
-- Project-4/pox_module/CSE425/ofhandler.py: the controller component that talks to the switch.
pub mod Settings
pub mod Switch
pub mod Loading
pub mod Announce
mod Tests
