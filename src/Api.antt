-- ===== src/Api.antt =====
-- src/api.rs and src/api/jobs.rs: the loopback HTTP service.
pub mod Errors
pub mod Jobs
pub mod Guards
pub mod Wireless
