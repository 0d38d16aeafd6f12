-- ===== src/Cloud.antt =====
-- src/cloud: the requests of the broker, the durable store of its jobs, and the agent.
pub mod Request
pub mod Store
pub mod Agent
