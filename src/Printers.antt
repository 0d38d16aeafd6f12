-- ===== src/Printers.antt =====
-- src/printers.rs: the printers that the user manages, and their endpoints.
pub mod Errors
pub mod Endpoint
pub mod Store
