-- ===== src/Ota.antt =====
-- firmware/components/gate_ota: what makes an update acceptable, and how it is installed.
pub mod Manifest
pub mod Updater
