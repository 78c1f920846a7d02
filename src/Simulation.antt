-- ===== src/Simulation.antt =====
-- simulation: the host's stand-in for a gate.
pub mod VirtualGate
