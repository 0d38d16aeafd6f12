-- ===== src/Tests.antt =====
-- Concrete runs of the modelled code (src/jobs.rs, src/auth.rs, src/api, src/cloud).
pub mod Jobs
pub mod Grants
pub mod Broker
pub mod Devices
pub mod Reports
pub mod Access
pub mod Pixels
pub mod Protocols
pub mod Wireless
