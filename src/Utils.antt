-- ===== src/Utils.antt =====
-- utils/: shared helpers of the agent.
pub mod Reset
pub mod Latest
