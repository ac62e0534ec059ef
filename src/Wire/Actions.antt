-- ===== src/Wire/Actions.antt =====
-- The actions of a flow or of a packet that is sent: `ofp_action_header`, which stands for a type
-- that is not known, the classes of the children, and `_unpack_actions`.
pub mod Plain
pub mod Tags
pub mod Mpls
pub mod Union
pub mod Loop
pub mod Fuel
pub mod Sent
pub mod RoundTrip
