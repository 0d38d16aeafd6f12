-- ===== src/Auth.antt =====
-- src/auth.rs: pairing secrets, origin-bound bearer grants and local approvals of Wi-Fi changes.
pub mod Types
pub mod Origin
pub mod Persistence
pub mod Pairing
pub mod Grants
pub mod Wifi
pub mod Machine
