-- ===== src/Device.antt =====
-- src/device.rs: the codecs of the printers' protocols.
pub mod Ipp
pub mod Wifi
pub mod Status
pub mod Http
