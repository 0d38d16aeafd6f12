-- ===== src/Cloud/Agent.antt =====
-- src/cloud/agent.rs: the answers of the agent to the broker.
pub mod Status
pub mod Receive
pub mod Durable
pub mod Report
pub mod Backoff
