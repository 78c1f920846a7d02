-- ===== src/Scenarios.antt =====
-- Concrete runs of the modelled code: the theorems at inputs that meet their hypotheses.
mod Gate
mod Firmware
mod Commands
mod Framing
mod Server
mod Services
mod Ota
mod Dashboard
mod Login
mod Simulation
mod Broadcast
mod Client
mod Reading
mod Update
mod Vision
mod Wiring
