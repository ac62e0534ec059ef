-- ===== src/OpenFlow.antt =====
-- Project-4/pox/pox/openflow: the match structure, the flow table and the software switch of the
-- controller platform that the handlers run on.
pub mod Match
pub mod FlowTable
pub mod Switch
pub mod Connection
pub mod Pending
