-- ===== src/Wire/Stats.antt =====
-- The parts of statistics requests and replies.
pub mod Counters
pub mod Descriptions
pub mod Flows
