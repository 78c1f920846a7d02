-- ===== src/Server.antt =====
-- server/auth and server/fusion: who may enter; server/dash: who is told; server/rpc: what is asked;
-- server/inference and server/vision: what is read and seen.
pub mod Plate
pub mod Allowlist
pub mod Decision
pub mod Fusion
pub mod Broadcast
pub mod Ctc
pub mod Services
pub mod Vision
