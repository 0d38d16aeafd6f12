-- ===== src/Api/Jobs.antt =====
-- src/api/jobs.rs: submission, execution, cancellation and persistence of local print jobs.
pub mod Retention
pub mod Admission
pub mod Worker
pub mod Batch
pub mod Continuous
pub mod Render
pub mod Submission
pub mod Steps
